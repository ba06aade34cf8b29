-- ===== src/Tests/Engine.antt =====
-- A storage engine in memory, whose calls succeed.
use db_index_performance_eva.Base.{
  ◌≡◌, refl, Bool, true, false, none, some, [], ◌∷◌, arith, if◌then◌else◌,
}
use db_index_performance_eva.Base.State.{done, fail}
use db_index_performance_eva.Bytes.{Bytes}
use db_index_performance_eva.Accessor.{bytes_of}
use db_index_performance_eva.Lsm.Order.{bytes_compare}
use db_index_performance_eva.Lsm.Engine.{Pebble}
use db_index_performance_eva.Lsm.Store.{Entries, find, between, is_eq, is_some, Reliable}

unfoldable pub remove : Bytes → Entries → Entries
remove k [] = []
remove k ((j, v) ∷ es) =
    let rest = remove k es in if is_eq (bytes_compare j k) then rest else (j, v) ∷ rest

abbrev pub step : Entries → Entries × Bool
step [] = ([], false)
step (_ ∷ cs) = (cs, is_some cs)

abbrev pub head_key : Entries → Bytes
head_key [] = []
head_key ((k, _) ∷ _) = k

abbrev pub head_value : Entries → Bytes
head_value [] = []
head_value ((_, v) ∷ _) = v

abbrev pub in_memory : Pebble Entries Entries (Unit {0})
in_memory = record {
  set = λ k v es. done tt ((k, bytes_of v) ∷ es);
  get = λ k es. elim (find k es) [ none ↦ fail tt es | some v ↦ done v es ];
  release = λ es. es;
  delete = λ k es. done tt (remove k es);
  is_not_found = λ e. true;
  new_iter = λ lo hi es. done (between lo hi es) es;
  first = λ it. it;
  valid = is_some;
  next = step;
  key = head_key;
  value = head_value;
  close_iter = λ it es. done tt es;
  close = λ es. done tt es;
}

same_bytes : (a b : Bytes) → is_eq (bytes_compare a b) ≡ true → a ≡ b
unfolding bytes_compare
same_bytes [] [] e = refl
same_bytes [] (y ∷ b) e = cc
same_bytes (x ∷ a) [] e = cc
same_bytes (x ∷ a) (y ∷ b) e = ground (arith, same_bytes a b)

bytes_compare_self : (a : Bytes) → is_eq (bytes_compare a a) ≡ true
unfolding bytes_compare
bytes_compare_self [] = refl
bytes_compare_self (x ∷ a) = ground (arith, bytes_compare_self a)

find-remove :
    (k : Bytes) (es : Entries) (j : Bytes)
    → find j (remove k es) ≡ (if is_eq (bytes_compare k j) then none else find j es)
unfolding remove
find-remove k [] j = ground arith
find-remove k ((i, v) ∷ es) j = ground (
  arith,
  find-remove k es j,
  same_bytes i k,
  same_bytes i j,
  same_bytes k j,
  bytes_compare_self i,
)

pub in_memory_laws : Reliable in_memory
in_memory_laws = record {
  entries = λ es. es;
  set-ok = λ k v es. ((k, bytes_of v) ∷ es, refl, λ j. refl);
  delete-ok = λ k es. (remove k es, refl, find-remove k es);
  get-found = λ k v es e. rw (in_memory, e) refl;
  get-missing = λ k es e. (tt, rw (in_memory, e) refl, refl);
  entries-release = λ es. refl;
  rest = λ it. it;
  new_iter-ok = λ lo hi es. (between lo hi es, refl, refl);
  valid-rest = λ it. refl;
  next-rest = λ it c cs e. (cs, rw e refl, refl);
  key-rest = λ it c cs e. rw e refl;
  value-rest = λ it c cs e. rw e refl;
}

pub entries-in_memory_laws : (es : Entries) → in_memory_laws.entries es ≡ es
unfolding in_memory_laws
entries-in_memory_laws es = refl

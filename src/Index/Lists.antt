-- ===== src/Index/Lists.antt =====
-- The list index as an implementation of the index interface.
use db_index_performance_eva.Base.{
  ◌≡◌, refl, ap, ◌∙◌, Bool, true, false, none, some, List, if◌then◌else◌, eqb_ℤ,
}
use db_index_performance_eva.Base.Go.{ok, ◌>>=◌}
use db_index_performance_eva.Base.State.{Run, done, fail}
use db_index_performance_eva.Bytes.{Bytes}
use db_index_performance_eva.Accessor.{Value}
use db_index_performance_eva.ListIndex
use db_index_performance_eva.ListIndex.{Data, Found, found, not_found, ListIterator, current}
use db_index_performance_eva.ListIndex.Laws.{get-insert}
use db_index_performance_eva.Index.{Index, Iterator, IsMap}

-- The one error, "key not found".
pub data KeyError : Type 0 where
  key_not_found : KeyError

abbrev answer : Found Value → List Data → Run KeyError (List Data) Value
answer (found v) ds = done v ds
answer not_found ds = fail key_not_found ds

abbrev pub list_index : Index (List Data) KeyError ListIterator
list_index = record {
  insert = λ k v ds. done tt (ListIndex.insert k v ds);
  get = λ k ds. answer (ListIndex.get k ds) ds;
  delete = λ k ds. elim (ListIndex.delete k ds) [
    | found ds' ↦ done tt ds'
    | not_found ↦ fail key_not_found ds
  ];
  range = λ start end_key ds. done (ListIndex.range start end_key ds) ds;
  close = λ ds. done tt ds;
}

abbrev list_iterator : Iterator (List Data) KeyError ListIterator
list_iterator = record {
  next = λ it ds. done (ListIndex.next it) ds;
  key = λ it. (do d ← current it; ok d.key);
  value = λ it. (do d ← current it; ok d.val);
  error = λ it. none;
  close = λ it ds. done tt ds;
}

abbrev value_of : Found Value → Value
value_of (found v) = v
value_of not_found = none

value_of-if :
    (b : Bool) (v : Bytes) (f : Found Value)
    → value_of (if b then found (some v) else f) ≡ (if b then some v else value_of f)
value_of-if true v f = refl
value_of-if false v f = refl

get_some :
    (f : Found Value) (v : Bytes) (ds : List Data)
    → value_of f ≡ some v
    → answer f ds ≡ done (some v) ds
get_some (found w) v ds e = ap (λ u. done u ds) e
get_some not_found v ds e = cc

pub list_index-IsMap : IsMap list_index
list_index-IsMap = record {
  content = λ ds k. value_of (ListIndex.get k ds);
  insert-content = λ k v ds h. (
    ListIndex.insert k (some v) ds,
    refl,
    λ j h'.
        ap value_of (get-insert j k (some v) ds) ∙ value_of-if (eqb_ℤ k j) v (ListIndex.get j ds),
  );
  get-content = λ k v ds e. (ds, get_some (ListIndex.get k ds) v ds e, λ j. refl);
}

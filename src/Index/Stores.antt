-- ===== src/Index/Stores.antt =====
-- The LSM index, over the storage engine, as an implementation of the index interface.
use db_index_performance_eva.Base.{refl, ap, ◌∙◌, some}
use db_index_performance_eva.Base.Go.{ok}
use db_index_performance_eva.Base.State.{done}
use db_index_performance_eva.Lsm.{encode_key}
use db_index_performance_eva.Lsm.Engine
use db_index_performance_eva.Lsm.Engine.{Pebble, Error, RangeIterator}
use db_index_performance_eva.Lsm.Store.{Reliable, content, find, get-content, same_key}
use db_index_performance_eva.Index.{Index, Iterator, IsMap}

module _ {Db Iter E : Type 0} (engine : Pebble Db Iter E) where
  abbrev pub lsm_index : Index Db (Error E) (RangeIterator Iter E)
  lsm_index = record {
    insert = Engine.insert engine;
    get = Engine.get engine;
    delete = Engine.delete engine;
    range = Engine.range engine;
    close = Engine.close engine;
  }

  abbrev lsm_iterator : Iterator Db (Error E) (RangeIterator Iter E)
  lsm_iterator = record {
    next = λ it db. done (Engine.next engine it) db;
    key = λ it. ok it.k;
    value = λ it. ok it.val;
    error = λ it. it.err;
    close = Engine.close_iterator engine;
  }

  pub lsm_index-IsMap : Reliable engine → IsMap lsm_index
  unfolding Engine.insert
  lsm_index-IsMap r = record {
    content = content engine r;
    insert-content = λ k v db h.
        let (db', e, after) = r.set-ok (encode_key k) (some v) db in
        (db', rw e refl, λ j h'. after (encode_key j) ∙ rw (same_key k j h h') refl);
    get-content = λ k v db e.
        let (db', g, same) = get-content engine r k db in
        (db', g ∙ rw e refl, λ j. ap (find (encode_key j)) same);
  }

-- ===== src/State/Clocked/Instance.antt =====
-- The memory store as a `StateStore`.
use modelship.State.Clocked.{
  Clocked, content, get, set, delete, append, append_and_set, read_range, expire,
}
use modelship.State.Store.{StateStore}
use modelship.State.Clocked.Lasting.{Lasts}
use modelship.State.Clocked.Laws.{
  get_law, set_law, delete_law, append_law, append_and_set_law, read_range_law, expire_law,
}

-- The memory store keeps every promise of `StateStore`.
abbrev pub store : {V : Type 0} → StateStore V
store {V} = record {
  State = Clocked V;
  get = get;
  set = set;
  delete = delete;
  append = append;
  append_and_set = append_and_set;
  read_range = read_range;
  expire = expire;
  content = content;
  Lasting = Lasts;
  get-reply = λ t k w h. (get_law t w h k).0;
  get-content = λ t k j w h. (get_law t w h k).2 j;
  get-Lasting = λ t k w h. (get_law t w h k).1;
  set-content = λ t k j v w h. (set_law t w h k v).1 j;
  set-Lasting = λ t k v w h. (set_law t w h k v).0;
  delete-content = λ t k j w h. (delete_law t w h k).1 j;
  delete-Lasting = λ t k w h. (delete_law t w h k).0;
  append-reply = λ t k p e w h. (append_law t w h k p e).0;
  append-content = λ t k p e j w h. (append_law t w h k p e).2 j;
  append-Lasting = λ t k p e w h. (append_law t w h k p e).1;
  append_and_set-reply = λ t l p e k v x w h. (append_and_set_law t w h l p e k v x).0;
  append_and_set-content = λ t l p e k v x j w h. (append_and_set_law t w h l p e k v x).2 j;
  append_and_set-Lasting = λ t l p e k v x w h. (append_and_set_law t w h l p e k v x).1;
  read_range-reply = λ t k a b w h. (read_range_law t w h k a b).0;
  read_range-content = λ t k a b j w h. (read_range_law t w h k a b).2 j;
  read_range-Lasting = λ t k a b w h. (read_range_law t w h k a b).1;
  expire-content = λ t k j w h. (expire_law t w h k).1 j;
  expire-Lasting = λ t k w h. (expire_law t w h k).0;
}

-- ===== src/Redis/Memory.antt =====
-- A Redis in memory. It shows that the laws of `Redis` can be met.
use gbi_backend.Base.{suc, ◌+◌, ◌*◌, refl, Option, none, some, if◌then◌else◌}
use gbi_backend.Redis.{
  Redis, RedisKey, Entry, number, key_eq, is_live, live, value_of, counted, expiry_of, with_expiry,
}

abbrev pub memory_redis : Redis
memory_redis = record {
  Store = RedisKey → Option Entry;
  entry = λ s k. s k;
  get = λ k now s. value_of (live now (s k));
  get_lem = λ k now s. refl;
  exists = λ k now s. is_live now (s k);
  exists_lem = λ k now s. refl;
  set_ex = λ k v ttl now s j.
      if key_eq k j then some (record { value = v; expires_at = some (now + ttl * 1000) }) else s j;
  entry-set_ex = λ k v ttl now s j. refl;
  del = λ k s j. if key_eq k j then none else s j;
  entry-del = λ k s j. refl;
  incr = λ k now s. (
    suc (counted now (s k)),
    λ j.
        if key_eq k j
        then some (record {
          value = number (suc (counted now (s k)));
          expires_at = expiry_of (live now (s k));
        })
        else s j,
  );
  incr_lem = λ k now s. refl;
  entry-incr = λ k now s j. refl;
  expire =
      λ k ttl now s j. if key_eq k j then with_expiry (now + ttl * 1000) (live now (s k)) else s j;
  entry-expire = λ k ttl now s j. refl;
}

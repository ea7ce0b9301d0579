-- ===== src/Server/Redis.antt =====
-- The Redis server that the processes share, for the commands they use: the strings (GET, SET, DEL,
-- INCR), and one sorted set with one hash of integers for the queue (ZSCORE, ZADD, ZREM, ZRANGE;
-- HSET, HDEL, HGETALL). A key is a text, and a reply that is missing is `none`.
use chess_kung_fu.Prelude.{
  ℕ, ◌+◌, ◌≤◌, ◌≡◌, not, Option, none, some, List, filter, elem, if◌then◌else◌, ◌==◌, String,
  string_eq, ℤ, HasUniqueKeys,
}
use chess_kung_fu.Model.{Text, text_eq}

pub record Keys (K : Type 0) : Type 0 where
  pub get_key : K → Text → Option Text
  pub set_key : K → Text → Text → K
  pub delete_key : K → Text → K
  pub incr : K → Text → K × ℕ

-- What the commands' documentation says of them.
pub record IsKeys {K : Type 0} (r : Keys K) : Type 0 where
  pub get-set :
      (k : K) (key value q : Text)
      → r.get_key (r.set_key k key value) q ≡ (if q == key then some value else r.get_key k q)
  pub get-delete :
      (k : K) (key q : Text)
      → r.get_key (r.delete_key k key) q ≡ (if q == key then none else r.get_key k q)
  pub incr_positive : (k : K) (key : Text) → 1 ≤ (r.incr k key).1
  pub incr_again : (k : K) (key : Text) → (r.incr (r.incr k key).0 key).1 ≡ (r.incr k key).1 + 1

-- The members of the sorted set come by score.
pub record Waiting (Q : Type 0) : Type 0 where
  pub zscore : Q → String → Option ℕ
  pub zadd : Q → String → ℕ → Q
  pub zrem : Q → List String → Q
  pub zrange : Q → List (String × ℕ)
  pub hset : Q → String → ℤ → Q
  pub hdel : Q → List String → Q
  pub hget : Q → String → Option ℤ

pub record IsWaiting {Q : Type 0} (r : Waiting Q) : Type 0 where
  pub single : (q : Q) → HasUniqueKeys (r.zrange q)
  pub zrange-zrem :
      (q : Q) (us : List String)
      → r.zrange (r.zrem q us) ≡ filter (λ e. not (elem e.0 us)) (r.zrange q)
  pub zrange-hdel : (q : Q) (us : List String) → r.zrange (r.hdel q us) ≡ r.zrange q
  pub hget-hdel :
      (q : Q) (us : List String) (u : String)
      → r.hget (r.hdel q us) u ≡ (if elem u us then none else r.hget q u)
  pub hget-zrem : (q : Q) (us : List String) (u : String) → r.hget (r.zrem q us) u ≡ r.hget q u

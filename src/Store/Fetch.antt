-- ===== src/Store/Fetch.antt =====
-- server/store/fetch_request.go: the request that a reader hands to the store.
use guble.Prelude.{ℕ, ◌-◌, ◌^◌, Bytes}
use guble.Protocol.Decimal.{ℤ, pos, negsuc}

-- FetchDirection: one message, forward, backwards.
pub data Direction : Type 0 where
  one_message forward backwards : Direction

pub record FetchRequest : Type 0 where
  pub partition : Bytes
  pub start_id : ℕ
  pub end_id : ℕ
  pub direction : Direction
  pub count : ℕ

abbrev pub max_int32 : ℕ
max_int32 = 2 ^ 31 - 1

-- A negative count is no limit.
unfoldable pub new_fetch_request : Bytes → ℕ → ℕ → Direction → ℤ → FetchRequest
new_fetch_request name start end direction count = record {
  partition = name;
  start_id = start;
  end_id = end;
  direction = direction;
  count = elim count [ pos n ↦ n | negsuc n ↦ max_int32 ];
}

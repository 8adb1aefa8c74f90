-- ===== src/Sdk/Contract/Words.antt =====
-- Words as bytes, and the two readings of 64 bits.
use ipc_client.Base.{ℕ, ◌^◌, ◌<◌, ◌≡◌, arith}
use ipc_client.Base.Int.{ℤ, pos, negsuc, InI64, wrap_i64, ◌-ℤ◌, ◌+ℤ◌}
use ipc_client.Sdk.Contract.{to_be_bytes, from_be_bytes, as_u64, as_i64}

-- A word of 32 bits is read from its four bytes.
pub from_be_bytes-to_be_bytes : (n : ℕ) → n < 2 ^ 32 → from_be_bytes (to_be_bytes n) ≡ n
unfolding from_be_bytes to_be_bytes
from_be_bytes-to_be_bytes n h = omega arith

pub as_i64-as_u64 : (h : ℤ) → InI64 h → as_i64 (as_u64 h) ≡ h
unfolding as_i64 as_u64 wrap_i64 ◌-ℤ◌ ◌+ℤ◌
as_i64-as_u64 (pos n) i = ground arith
as_i64-as_u64 (negsuc n) i = ground arith

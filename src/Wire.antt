-- ===== src/Wire.antt =====
-- The 36-byte id fields of the unicast and multicast datagrams: encodeUnicastMessage of
-- server/unicast/unicast.go and encodeMulticastMessage of server/multicast/multicast.go cut a longer
-- id and fill a shorter one with zero bytes.
use distributed_chat_applica.Prelude.{
  ℕ, ◌-◌, ◌≡◌, ◌++◌, arith, length, take, replicate, length-append, length-replicate, length-take,
  ltb, if◌then◌else◌,
}
use distributed_chat_applica.Go.Text.{Bytes}

-- if len(idBytes) > 36 { idBytes = idBytes[:36] }
abbrev cut_id : Bytes → Bytes
cut_id s = if ltb 36 (length s) then take 36 s else s

-- if len(idBytes) < 36 { idBytes = append(idBytes, make([]byte, 36-len(idBytes))...) }
abbrev fill_id : Bytes → Bytes
fill_id s = if ltb (length s) 36 then s ++ replicate (36 - length s) 0 else s

unfoldable pub fixed_id : Bytes → Bytes
fixed_id s = fill_id (cut_id s)

pub length-fixed_id : (s : Bytes) → length (fixed_id s) ≡ 36
unfolding fixed_id
length-fixed_id s = ground (
  arith,
  length-take 36 s,
  length-append s (replicate (36 - length s) 0),
  length-replicate {A = ℕ} (36 - length s) 0,
)

-- An id of 36 bytes, as uuid.New makes them, is written as it is.
pub fixed_id-eq_self : (s : Bytes) → length s ≡ 36 → fixed_id s ≡ s
unfolding fixed_id
fixed_id-eq_self s h = ground arith

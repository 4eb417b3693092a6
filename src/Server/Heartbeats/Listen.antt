-- ===== src/Server/Heartbeats/Listen.antt =====
-- The heartbeats of a follower at the listener of its leader, in server/heartbeat.go.
use distributed_chat_applica.Prelude.{
  ℕ, zero, suc, ◌≤◌, ◌≡◌, refl, ap, List, [], ◌∷◌, ◌++◌, Bool, true, false, map, length, take, drop,
  length-take, take_all, drop_all, append-nil, arith,
}
use distributed_chat_applica.Go.Text.{Bytes}
use distributed_chat_applica.Server.Heartbeats.{
  Interval, quits, write_fails, writes, beat_again, start_hearbeat, Read, datagram, fill,
  listen_beats,
}

take-drop : (n : ℕ) (xs : Bytes) → take n xs ++ drop (length (take n xs)) xs ≡ xs
take-drop zero xs = refl
take-drop (suc n) [] = refl
take-drop (suc n) (x ∷ xs) = ap (◌∷◌ x) (take-drop n xs)

fill_whole : (buf uuid : Bytes) → length uuid ≡ 36 → length buf ≡ 36 → fill buf uuid ≡ uuid
fill_whole buf uuid full size =
    rw (take_all 36 uuid (omega arith), full, drop_all 36 buf (omega arith)) (append-nil uuid)

fill_part : (uuid : Bytes) (n : ℕ) → length uuid ≡ 36 → fill uuid (take n uuid) ≡ uuid
fill_part uuid n full =
    let short : length (take n uuid) ≤ 36 = omega (arith, length-take n uuid) in
    rw (take_all 36 (take n uuid) short) (take-drop n uuid)

module _ (is_uuid : Bytes → Bool) (uuid : Bytes) (valid : is_uuid uuid ≡ true)
    (full : length uuid ≡ 36) where
  again-heard :
      (buf : Bytes) (intervals : List Interval)
      → length buf ≡ 36
      → listen_beats is_uuid buf (map datagram (beat_again uuid intervals))
        ≡ beat_again uuid intervals
  unfolding listen_beats beat_again
  again-heard buf [] size = refl
  again-heard buf (quits ∷ intervals) size = refl
  again-heard buf (write_fails ∷ intervals) size = refl
  again-heard buf (writes ∷ intervals) size =
      rw (fill_whole buf uuid full size, valid) (ap (◌∷◌ uuid) (again-heard uuid intervals full))

  -- Each datagram that a follower with a uuid of 36 bytes sends is a heartbeat of it at the listener,
  -- whatever the listener's buffer held before.
  pub listen_beats-start_hearbeat :
      (buf : Bytes) (first : Bool) (intervals : List Interval)
      → length buf ≡ 36
      → listen_beats is_uuid buf (map datagram (start_hearbeat uuid first intervals))
        ≡ start_hearbeat uuid first intervals
  unfolding start_hearbeat listen_beats
  listen_beats-start_hearbeat buf true intervals size =
      rw (fill_whole buf uuid full size, valid) (ap (◌∷◌ uuid) (again-heard uuid intervals full))
  listen_beats-start_hearbeat buf false intervals size = refl

  -- A datagram that is only the beginning of a uuid, or empty, counts as another heartbeat of the node
  -- whose heartbeat came before it, because the buffer still holds the rest.
  pub listen_beats_repeats :
      (buf : Bytes) (n : ℕ) (reads : List Read)
      → length buf ≡ 36
      → listen_beats is_uuid buf (datagram uuid ∷ datagram (take n uuid) ∷ reads)
        ≡ uuid ∷ uuid ∷ listen_beats is_uuid uuid reads
  unfolding listen_beats
  listen_beats_repeats buf n reads size =
      rw (fill_whole buf uuid full size, fill_part uuid n full, valid) refl

-- ===== src/Broadcast/Discovery.antt =====
-- What IsAnyOneBroadcasting of server/broadcast/broadcast.go finds.
use distributed_chat_applica.Prelude.{
  ◌≡◌, ◌≢◌, refl, sym, ap, ◌∙◌, append-nil, ◌≤◌, List, [], ◌∷◌, ◌++◌, Bool, true, false, some, none,
  length, take, take_all, All, ◌⊎◌, inl, inr, Bool-cases,
}
use distributed_chat_applica.Go.Text.{Bytes, str_eq_refl, str_eq_ne}
use distributed_chat_applica.Broadcast.{
  Arrival, read_error, datagram, buffer_size, listen, is_any_one_broadcasting,
}

-- A datagram that listen passes over: from an address that is not UDP, without a uuid at its start,
-- or with the id of the node itself.
abbrev pub IsNoise : (Bytes → Bool) → Bytes → Arrival → Type 0
IsNoise is_uuid id read_error = ⊥
IsNoise is_uuid id (datagram none data_bytes) = Unit
IsNoise is_uuid id (datagram (some ip) data_bytes) =
    (is_uuid (take buffer_size data_bytes) ≡ false) ⊎ (take buffer_size data_bytes ≡ id)

module _ (is_uuid : Bytes → Bool) where
  listen_past :
      (id : Bytes) (noise rest : List Arrival)
      → All (IsNoise is_uuid id) noise
      → listen is_uuid id (noise ++ rest) ≡ listen is_uuid id rest
  unfolding listen
  listen_past id [] rest a = refl
  listen_past id (read_error ∷ noise) rest a = absurd a.0
  listen_past id (datagram none data_bytes ∷ noise) rest a = listen_past id noise rest a.1
  listen_past id (datagram (some ip) data_bytes ∷ noise) rest a = elim a.0 [
    | inl other ↦ rw other (listen_past id noise rest a.1)
    | inr own ↦ elim (Bool-cases (is_uuid (take buffer_size data_bytes))) [
      | inl valid ↦ rw (valid, own, str_eq_refl id) (listen_past id noise rest a.1)
      | inr invalid ↦ rw invalid (listen_past id noise rest a.1)
    ]
  ]

  -- While only noise arrives, no one is found to be broadcasting.
  pub noise_is_quiet :
      (id : Bytes) (noise : List Arrival)
      → All (IsNoise is_uuid id) noise
      → is_any_one_broadcasting is_uuid id noise ≡ none
  unfolding is_any_one_broadcasting listen
  noise_is_quiet id noise a =
      let silent : listen is_uuid id noise ≡ [] =
        ap (listen is_uuid id) (sym (append-nil noise)) ∙ listen_past id noise [] a in
      rw (is_any_one_broadcasting, silent) refl

  -- The first other node is found, whatever noise came before it: datagrams that are not from a UDP
  -- address, carry no uuid, or are the node's own.
  pub is_any_one_broadcasting_lem :
      (id uuid ip : Bytes) (noise rest : List Arrival)
      → All (IsNoise is_uuid id) noise
      → is_uuid uuid ≡ true
      → uuid ≢ id
      → length uuid ≤ 1024
      → is_any_one_broadcasting is_uuid id (noise ++ datagram (some ip) uuid ∷ rest)
        ≡ some (record { uuid = uuid; ip = ip })
  unfolding is_any_one_broadcasting listen
  is_any_one_broadcasting_lem id uuid ip noise rest a valid other fits =
      rw
        (
          is_any_one_broadcasting,
          listen_past id noise (datagram (some ip) uuid ∷ rest) a,
          listen,
          take_all 1024 uuid fits,
          valid,
          str_eq_ne uuid id other,
        )
        refl

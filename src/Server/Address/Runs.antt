-- ===== src/Server/Address/Runs.antt =====
-- Two nodes of the network 192.168.1.0/24.
use distributed_chat_applica.Prelude.{◌≡◌, refl, [], ◌∷◌, true, false, some, ◌+◌, arith}
use distributed_chat_applica.Go.Binary.{be_value, put_be}
use distributed_chat_applica.Go.Result.{ok}
use distributed_chat_applica.Server.Address.{Address, local_ip, broadcast_ip}
use distributed_chat_applica.Server.Address.Network.{shift, ones, broadcast_ip_lem}

abbrev loopback : Address
loopback = record {
  is_ip_net = true;
  is_loopback = true;
  ip = some (127 ∷ 0 ∷ 0 ∷ 1 ∷ []);
  mask = some (255 ∷ 0 ∷ 0 ∷ 0 ∷ []);
}

abbrev seventh : Address
seventh = record {
  is_ip_net = true;
  is_loopback = false;
  ip = some (192 ∷ 168 ∷ 1 ∷ 7 ∷ []);
  mask = some (255 ∷ 255 ∷ 255 ∷ 0 ∷ []);
}

takes_seventh : local_ip (loopback ∷ seventh ∷ []) ≡ some seventh
unfolding local_ip
takes_seventh = refl

broadcast_ip_lem_example : broadcast_ip seventh ≡ some (ok (put_be 4 (shift 8 12625921 + ones 8)))
unfolding be_value
broadcast_ip_lem_example =
    broadcast_ip_lem seventh 8 12625921 7 (192 ∷ 168 ∷ 1 ∷ 7 ∷ []) (255 ∷ 255 ∷ 255 ∷ 0 ∷ []) refl
      refl (omega arith) refl refl (omega arith) (omega arith)

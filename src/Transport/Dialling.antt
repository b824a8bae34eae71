-- ===== src/Transport/Dialling.antt =====
-- pkg/infrastructure_layer/transport/transporters/host.go: `Dial`, and what the discovery by mDNS does
-- with a peer that it finds. The host of libp2p is a parameter.
use lucinda.Base.{Str, str_eq, ℕ, ltb, Option, none, some, if◌then◌else◌, Result, failed, gave}

-- The host of libp2p, its multiaddresses and its addresses of peers.
pub record Libp2p {ℓ} (Host Addr Info : Type ℓ) : Type ℓ where
  pub new_multiaddr : Str → Result Str Addr
  pub addr_info : Addr → Result Str Info
  pub own_id : Host → Str
  pub peer_id : Info → Str
  pub conns_to_peer : Str → Host → ℕ
  pub connect : Info → Host → Host × Option Str

pub data DialError : Type 0 where
  not_parsed not_extracted not_connected : Str → Str → DialError

module _ {ℓ} {Host Addr Info : Type ℓ} (lib : Libp2p Host Addr Info) where
  -- `none` is the panic of a transport without a host, at its first use.
  unfoldable pub dial : Str → Option Host → Option (Option Host × Option DialError)
  dial target host = elim (lib.new_multiaddr target) [
    | failed e ↦ some (host, some (not_parsed target e))
    | gave a ↦ elim (lib.addr_info a) [
      | failed e ↦ some (host, some (not_extracted target e))
      | gave info ↦ elim host [
        | none ↦ none
        | some h ↦
            let (h', error) = lib.connect info h in
            some (some h', elim error [ none ↦ none | some e ↦ some (not_connected target e) ])
      ]
    ]
  ]

  -- The node itself and a peer with a connection are passed over.
  unfoldable pub handle_peer_found : Info → Host → Host
  handle_peer_found info h =
      if str_eq (lib.peer_id info) (lib.own_id h)
      then h
      else if ltb 0 (lib.conns_to_peer (lib.peer_id info) h)
      then h
      else (let (h', error) = lib.connect info h in h')

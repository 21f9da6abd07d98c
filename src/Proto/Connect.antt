-- ===== src/Proto/Connect.antt =====
-- newt_proto.c, `handle_wg_connect`: the fields of a `newt/wg/connect` message, checked.
use newt_esp.Base.{
  ℕ, ◌≤◌, ◌<◌, ◌≡◌, ◌≢◌, refl, Bool, true, false, ◌&&◌, ◌⊎◌, inl, inr, [], ◌∷◌, Option, none, some,
  arith, ltb, ◌==◌, length, Bytes, codes, ◌>>=◌, ◌>>◌, guard, Option-cases,
}
use newt_esp.Extern.{esp_ok, esp_fail, Cjson, Base64}
use newt_esp.Proto.ChainId.{Chain, check_chain, check_chain_same, check_chain_other}
use newt_esp.Proto.Endpoint.{endpoint_max, host_port, host_port_parts}
use newt_esp.Proto.State.{WgConnect, wg_connect, Proto, Outcome, outcome, call_if, string_member}

-- `NEWT_WG_KEY_LEN`, and the size of the two address buffers.
abbrev pub key_len : ℕ
key_len = 32

abbrev pub ip_size : ℕ
ip_size = 16

module _ (c : Cjson) (b : Base64) where
  -- The key and the two addresses, copied behind the host and the port.
  unfoldable pub fill : Bytes → ℕ → Bytes → Bytes → Bytes → Option WgConnect
  fill host port jpubkey jserverip jtunnelip = do
    pubkey ← b.decode key_len jpubkey
    guard (length pubkey == key_len)
    guard (ltb (length jserverip) ip_size && ltb (length jtunnelip) ip_size)
    some (record {
      endpoint = host;
      endpoint_port = port;
      server_pubkey = pubkey;
      server_ip = jserverip;
      tunnel_ip = jtunnelip;
    })

  unfoldable pub read_fields : Bytes → Bytes → Bytes → Bytes → Option WgConnect
  read_fields jendpoint jpubkey jserverip jtunnelip = do
    hp ← host_port jendpoint
    fill hp.0 hp.1 jpubkey jserverip jtunnelip

  -- The checks behind the chain id, up to the filled structure; each failure is ESP_FAIL.
  unfoldable pub read_config : c.Item → Option WgConnect
  read_config root = do
    jendpoint ← string_member c root (codes "endpoint")
    jpubkey ← string_member c root (codes "publicKey")
    jserverip ← string_member c root (codes "serverIP")
    jtunnelip ← string_member c root (codes "tunnelIP")
    read_fields jendpoint jpubkey jserverip jtunnelip

  -- What follows the chain check: the callback first, then the id in flight is consumed.
  unfoldable pub deliver : Chain → Option WgConnect → Proto → Outcome
  deliver Chain.mismatch config p = outcome p [] esp_ok
  deliver chain none p = outcome p [] esp_fail
  deliver Chain.matched (some config) p =
      outcome (record p { inflight_chain_register = [] })
        (call_if p.cb.on_wg_connect (wg_connect config)) esp_ok
  deliver Chain.absent (some config) p =
      outcome p (call_if p.cb.on_wg_connect (wg_connect config)) esp_ok

  unfoldable pub handle_wg_connect : Bytes → Proto → Outcome
  unfolding deliver
  handle_wg_connect data_json p = elim (c.parse data_json) [
    | none ↦ outcome p [] esp_fail
    | some root ↦
        deliver (check_chain (string_member c root (codes "chainId")) p.inflight_chain_register)
          (read_config root) p
  ]

-- Every buffer of the structure holds its text with the terminator, the key is whole, and the port
-- is a port number.
pub record IsConfig (w : WgConnect) : Type 0 where
  pub host_ne_nil : 0 < length w.endpoint
  pub host_fits : length w.endpoint < endpoint_max
  pub port_pos : 0 < w.endpoint_port
  pub port_fits : w.endpoint_port ≤ 65535
  pub key_whole : length w.server_pubkey ≡ key_len
  pub server_fits : length w.server_ip < ip_size
  pub tunnel_fits : length w.tunnel_ip < ip_size

called :
    (set : Bool) (x : WgConnect)
    → (call_if set (wg_connect x) ≡ [])
      ⊎ ((w : WgConnect) × (call_if set (wg_connect x) ≡ wg_connect w ∷ []))
called true x = inr (x, refl)
called false x = inl refl

module _ (c : Cjson) (b : Base64) where
  read_fields-IsConfig :
      (e k s t : Bytes) (w : WgConnect) → read_fields c b e k s t ≡ some w → IsConfig w
  unfolding read_fields fill
  read_fields-IsConfig e k s t w h = elim (Option-cases (host_port e)) [
    | inl bad ↦ cc (rw (bad, read_fields) at h)
    | inr (hp, good) ↦ ground (arith, host_port_parts e hp good)
  ]

  read_config-IsConfig :
      (root : c.Item) (w : WgConnect) → read_config c b root ≡ some w → IsConfig w
  unfolding read_config
  read_config-IsConfig root w =
      go (string_member c root (codes "endpoint")) (string_member c root (codes "publicKey"))
        (string_member c root (codes "serverIP")) (string_member c root (codes "tunnelIP"))
    where
      go :
          (e k s t : Option Bytes)
          → (e >>= λ x. k >>= λ y. s >>= λ z. t >>= λ u. read_fields c b x y z u) ≡ some w
          → IsConfig w
      go (some e) (some k) (some s) (some t) h = read_fields-IsConfig e k s t w h
      go _ _ _ _ h = cc

  deliver-calls :
      (chain : Chain) (o : Option WgConnect) (p : Proto) (w : WgConnect)
      → (deliver c b chain o p).calls ≡ wg_connect w ∷ []
      → o ≡ some w
  unfolding deliver
  deliver-calls Chain.mismatch o p w h = cc
  deliver-calls Chain.matched none p w h = cc
  deliver-calls Chain.matched (some x) p w h = ground arith
  deliver-calls Chain.absent none p w h = cc
  deliver-calls Chain.absent (some x) p w h = ground arith

  abbrev Framed : Proto → Outcome → Type 0
  Framed p o =
      (o.proto ≡ record p { inflight_chain_register = o.proto.inflight_chain_register })
      × ((o.calls ≡ []) ⊎ ((w : WgConnect) × (o.calls ≡ wg_connect w ∷ [])))

  deliver-frame :
      (chain : Chain) (o : Option WgConnect) (p : Proto) → Framed p (deliver c b chain o p)
  unfolding deliver
  deliver-frame Chain.mismatch o p = (refl, inl refl)
  deliver-frame Chain.matched none p = (refl, inl refl)
  deliver-frame Chain.matched (some x) p = (refl, called p.cb.on_wg_connect x)
  deliver-frame Chain.absent none p = (refl, inl refl)
  deliver-frame Chain.absent (some x) p = (refl, called p.cb.on_wg_connect x)

  -- Whatever text arrives, in a configuration that reaches the callback the host is not empty, the host
  -- and both addresses fit their buffers with the terminator, the port is between 1 and 65535, and the
  -- key has 32 bytes.
  pub handle_wg_connect-IsConfig :
      (data_json : Bytes) (p : Proto) (w : WgConnect)
      → (handle_wg_connect c b data_json p).calls ≡ wg_connect w ∷ []
      → IsConfig w
  unfolding handle_wg_connect
  handle_wg_connect-IsConfig data_json p w h = elim (Option-cases (c.parse data_json)) [
    | inl e ↦ cc (rw (e, handle_wg_connect) at h)
    | inr (root, e) ↦
        read_config-IsConfig root w
          (deliver-calls _ (read_config c b root) p w (rw (e, handle_wg_connect) at h))
  ]

  -- A message that is refused with an error calls nothing and leaves the whole state, so the id in
  -- flight still waits for an answer.
  pub handle_wg_connect_refused :
      (data_json : Bytes) (p : Proto)
      → (handle_wg_connect c b data_json p).ret ≢ esp_ok
      → ((handle_wg_connect c b data_json p).calls ≡ [])
        × ((handle_wg_connect c b data_json p).proto ≡ p)
  unfolding handle_wg_connect
  handle_wg_connect_refused data_json p h = ground arith

  -- Only the id in flight of a registration may change, and one call at most is made.
  pub handle_wg_connect-frame :
      (data_json : Bytes) (p : Proto)
      → ((handle_wg_connect c b data_json p).proto ≡ record p {
        inflight_chain_register = (handle_wg_connect c b data_json p).proto.inflight_chain_register;
      })
        × (((handle_wg_connect c b data_json p).calls ≡ [])
            ⊎ ((w : WgConnect) × ((handle_wg_connect c b data_json p).calls ≡ wg_connect w ∷ [])))
  unfolding handle_wg_connect
  handle_wg_connect-frame data_json p = elim (Option-cases (c.parse data_json)) [
    | inl e ↦ rw (e, handle_wg_connect) (refl, inl refl)
    | inr (root, e) ↦
        rw (e, handle_wg_connect)
          (deliver-frame
            (check_chain (string_member c root (codes "chainId")) p.inflight_chain_register)
            (read_config c b root) p)
  ]

  module _ (data_json : Bytes) (root : c.Item) (p : Proto) (e : c.parse data_json ≡ some root) where
    -- With an id in flight and a readable configuration: the id in flight as the message's id
    -- delivers the configuration and consumes the id.
    pub handle_wg_connect_matched :
        (w : WgConnect)
        → string_member c root (codes "chainId") ≡ some p.inflight_chain_register
        → p.inflight_chain_register ≢ []
        → read_config c b root ≡ some w
        → handle_wg_connect c b data_json p
          ≡ outcome
              (record p { inflight_chain_register = [] })
              (call_if p.cb.on_wg_connect (wg_connect w))
              esp_ok
    unfolding handle_wg_connect
    handle_wg_connect_matched w s ne r =
        ground (arith, check_chain_same p.inflight_chain_register ne)

    -- Any other id that is not empty drops the message, whatever else it holds.
    pub handle_wg_connect_dropped :
        (other : Bytes)
        → string_member c root (codes "chainId") ≡ some other
        → other ≢ []
        → p.inflight_chain_register ≢ []
        → other ≢ p.inflight_chain_register
        → handle_wg_connect c b data_json p ≡ outcome p [] esp_ok
    unfolding handle_wg_connect
    handle_wg_connect_dropped other s ne busy d =
        ground (arith, check_chain_other other p.inflight_chain_register ne busy d)

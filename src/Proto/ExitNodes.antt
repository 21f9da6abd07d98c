-- ===== src/Proto/ExitNodes.antt =====
-- newt_proto.c, `handle_exit_nodes`: the answer to a ping request chooses an exit node.
use newt_esp.Base.{◌≡◌, ◌≢◌, ◌⊎◌, List, [], ◌∷◌, none, some, arith, Bytes, codes, ◌>>=◌}
use newt_esp.Extern.{esp_ok, esp_fail, Cjson, JsonNumber}
use newt_esp.Proto.ChainId.{Chain, check_chain, check_chain_same, check_chain_other}
use newt_esp.Proto.State.{exit_nodes, Proto, Outcome, outcome, call_if, string_member}

module _ (c : Cjson) where
  -- The id of the first node; no array, no node and no number leave the choice as it is.
  unfoldable pub choose_exit_node : c.Item → Proto → Proto
  choose_exit_node root p = elim (c.get_item root (codes "exitNodes") >>= c.array_of) [
    | some (first ∷ rest) ↦ elim (c.get_item first (codes "exitNodeId") >>= c.number_of) [
      | some n ↦ record p { chosen_exit_node_id = n.valueint }
      | none ↦ p
    ]
    | _ ↦ p
  ]

  -- The call stands behind the choice of the node, on every path that gets there.
  chosen : c.Item → Proto → Outcome
  chosen root p =
      let q = choose_exit_node root p in outcome q (call_if q.cb.on_exit_nodes exit_nodes) esp_ok

  answer : Chain → c.Item → Proto → Outcome
  unfolding chosen
  answer Chain.mismatch root p = outcome p [] esp_ok
  answer Chain.matched root p = chosen root (record p { inflight_chain_ping_request = [] })
  answer Chain.absent root p = chosen root p

  unfoldable pub handle_exit_nodes : Bytes → Proto → Outcome
  unfolding answer
  handle_exit_nodes data_json p = elim (c.parse data_json) [
    | none ↦ outcome p [] esp_fail
    | some root ↦
        answer (check_chain (string_member c root (codes "chainId")) p.inflight_chain_ping_request)
          root p
  ]

  -- Only the choice of a node and the id of a ping request may change, and the one call that may be
  -- made tells of exit nodes.
  pub handle_exit_nodes-frame :
      (data_json : Bytes) (p : Proto)
      → ((handle_exit_nodes data_json p).proto ≡ record p {
        inflight_chain_ping_request =
            (handle_exit_nodes data_json p).proto.inflight_chain_ping_request;
        chosen_exit_node_id = (handle_exit_nodes data_json p).proto.chosen_exit_node_id;
      })
        × (((handle_exit_nodes data_json p).calls ≡ [])
            ⊎ ((handle_exit_nodes data_json p).calls ≡ exit_nodes ∷ []))
  unfolding handle_exit_nodes choose_exit_node
  handle_exit_nodes-frame data_json p = ground arith

  module _ (data_json : Bytes) (root : c.Item) (p : Proto) (e : c.parse data_json ≡ some root) where
    -- An answer with the id in flight, whose first node has a number: the number becomes the chosen
    -- exit node, the id is consumed, the callback is called, and nothing else changes.
    pub handle_exit_nodes_chosen :
        (nodes first id : c.Item) (rest : List c.Item) (n : JsonNumber)
        → string_member c root (codes "chainId") ≡ some p.inflight_chain_ping_request
        → p.inflight_chain_ping_request ≢ []
        → c.get_item root (codes "exitNodes") ≡ some nodes
        → c.array_of nodes ≡ some (first ∷ rest)
        → c.get_item first (codes "exitNodeId") ≡ some id
        → c.number_of id ≡ some n
        → handle_exit_nodes data_json p
          ≡ outcome
              (record p { inflight_chain_ping_request = []; chosen_exit_node_id = n.valueint })
              (call_if p.cb.on_exit_nodes exit_nodes)
              esp_ok
    unfolding handle_exit_nodes choose_exit_node
    handle_exit_nodes_chosen nodes first id rest n s ne h1 h2 h3 h4 =
        ground (arith, check_chain_same p.inflight_chain_ping_request ne)

    -- An answer to another request is dropped with no effect, whatever nodes it lists.
    pub handle_exit_nodes_dropped :
        (other : Bytes)
        → string_member c root (codes "chainId") ≡ some other
        → other ≢ []
        → p.inflight_chain_ping_request ≢ []
        → other ≢ p.inflight_chain_ping_request
        → handle_exit_nodes data_json p ≡ outcome p [] esp_ok
    unfolding handle_exit_nodes
    handle_exit_nodes_dropped other s ne busy d =
        ground (arith, check_chain_other other p.inflight_chain_ping_request ne busy d)

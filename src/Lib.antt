-- ===== src/Lib.antt =====
-- newt-esp32: an ESP-IDF library that registers a device as a Pangolin site over WireGuard.
--
-- The library has six parts, and an example application around it (main.c). newt.c owns the
-- tasks: the supervisor fetches a token (newt_auth.c), opens the websocket (newt_ws.c), asks for
-- exit nodes and registers (newt_proto.c), waits for the configuration that a message delivers to
-- cb_wg_connect, and brings the tunnel up (newt_wg.c, newt_ping.c). The websocket's event handler
-- assembles text frames and queues them; its worker task parses each and calls cb_ws_msg, which
-- hands it to newt_proto_handle_message. The protocol sends through newt_ws_send_envelope.
--
-- Where each part is modelled:
--   Base     C strings as lists of bytes without the terminator, decimal printing and strtol
--            (32-bit long), lists over the native numbers.
--   Extern   esp_err_t as data; cJSON and mbedTLS base64 as records of operations with the
--            documented facts that the sources use. Extern/Sample gives values for tests.
--   Proto    src/newt_proto.c. State: the static variables and Outcome, a handler's result.
--            ChainId: chainId_new and the check of a received id. Endpoint and Connect:
--            handle_wg_connect. ExitNodes: handle_exit_nodes. Message:
--            newt_proto_handle_message. Send: the senders. Exchange: sending and handling together.
--   Ws       src/newt_ws.c. Url: url_encode, build_ws_url. Envelope: newt_ws_send_envelope.
--            Frame: enqueue_payload, handle_text_frame, with Bounds and Assembly. Backoff:
--            apply_backoff, ws_event_handler. Worker: worker_task, with Delivery. Mailbox: the
--            event handler and the worker as one queue of messages. Life: newt_ws_init,
--            newt_ws_start, newt_ws_stop, with Lifecycle. Pump: the worker beside the event handler
--            and newt_ws_stop, as moves that a schedule puts in order, with Orderly and Drained.
--   Auth     src/newt_auth.c. Response: resp_append, http_event_cb, with Growth and Complete.
--            Request: do_post, build_url, copy_field. Token: newt_auth_get_token and
--            newt_auth_register_with_provisioning_key, with Wiping and Fetch.
--   Wg       src/newt_wg.c. Address: ip4_to_str. Keys: newt_wg_load_or_generate_keypair, with
--            KeyPair. State: the static variables and wg_call_on_tcpip. Life: newt_wg_init,
--            newt_wg_start, newt_wg_stop and the getters, with Connect and Configure. Poller:
--            wg_poll_task beside newt_wg_stop, as moves that a schedule puts in order, with Quiet.
--   Newt     src/newt.c. Supervisor: supervisor_task, with Order. WgConfig: cb_wg_connect.
--            Reconnect: reconnect_task and periodic_ping_task, with Reports and Twice. Public:
--            newt_init, newt_start, newt_stop, newt_get_tunnel_ip and the other callbacks, with
--            Startup and Shutdown. Reactions and Tunnel join it to the protocol and the tunnel.
--            Live and Rejoin: supervisor_task and reconnect_task as moves on the static variables;
--            Moves puts them beside newt_stop, the websocket's events and worker, the callbacks, the
--            periodic ping and the poller, with Delivery, Ends, Overrun, Sound and Arrival.
--   Ping     src/newt_ping.c. Session: newt_ping_init, newt_ping_start, newt_ping_stop,
--            on_ping_success, with Sessions.
--   App      examples/basic/main/main.c. Wifi: wifi_event_handler and newt_evt_cb. Background:
--            heap_probe_task and wifi_disconnect_test_task. Hello: hello_handler. Boot: app_main,
--            with Clock and Start. Credentials: its copies into wifi_config_t.
--
-- How state and effects are modelled. Static variables are fields of a record, and a function
-- returns the new record. Calls of ESP-IDF, FreeRTOS, the allocator and the network enter by their
-- answers, as fields of a record or as functions of the number of the call. Callbacks and sends
-- are values in the result. A callback leaves the protocol's state alone, as those in newt.c do.
-- Where an event callback is not set, the events told are those that it would have been given.
-- Numbers are unbounded where the sources keep them in range: lengths are below 2^32, versions are
-- 64-bit and only compared and printed; lengths in websocket events are not negative. Two loops are
-- on fuel: the doubling of the response buffer takes 14 rounds at most, since it starts from one
-- byte or more and never needs more than 8192, and the connection attempts of newt_wg_start are
-- eleven at most. The loops of the tasks and of app_main count down the rounds of the source;
-- heap_probe_task never ends and is modelled by its first rounds.
--
-- A handle that is clear says that its variable is NULL: whether the task behind it has ended rests on
-- the wait for it, which Wg/Poller and Ws/Pump model with its timeout, and which the whole functions
-- newt_wg_stop and newt_ws_stop, like the moves of Newt/Moves, take as one step. Both have room for one
-- task and so leave out a start beside a task that lives. The configuration of the WireGuard library
-- holds pointers; the model has the texts that they name at the time of the call, so a later message
-- that overwrites newt.c's buffer for the host is not followed into the library.
--
-- Not modelled: logging, and the vendored examples/basic/components/esp_wireguard, which is another
-- project's library: its calls are parameters.
pub mod Base
pub mod Extern
pub mod Ws
pub mod Proto
pub mod Auth
pub mod Newt
pub mod Ping
pub mod Wg
pub mod App

-- ===== src/Socks/Client/Encoded.antt =====
-- A client of src/socks_proxy.rs from its first byte to its last: one that follows RFC 1928 and asks
-- for a host that is reached without a node.
use kitty_proxy.Common.{ℕ, ◌++◌, ◌≡◌, ◌≢◌, refl, true, Option}
use kitty_proxy.Common.Outcome.{Outcome, ok, err, panic}
use kitty_proxy.Types.{
  ErrorKind, unexpected_eof, broken_pipe, connection_reset, not_connected, unsupported, other,
  KittyProxyError, ResponseCode, response_code, failure, success,
}
use kitty_proxy.Balancer.{ConnectionStatsBanlancer}
use kitty_proxy.Socks.Stream.{Stream, shutdown}
use kitty_proxy.Socks.Wire.{socks_reply, send}
use kitty_proxy.Socks.Client.{
  Env, Dial, timed_out, failed, connected, return_value, handle_client, serve_client, Copied,
  copied, copy_failed,
}

module _ (env : Env) where
  -- An error that is answered and ends the connection.
  abbrev pub refused : Stream → ResponseCode → Stream
  refused s code = record s { output = s.output ++ socks_reply code; is_shut = true }

  -- How a client's side is left whose bytes were copied: a copy that fails is answered as well.
  abbrev pub copied_to : Outcome KittyProxyError ℕ → Stream → Stream
  copied_to (ok n) left = left
  copied_to (err e) left = (shutdown (send (socks_reply (response_code e)) left).1).1
  copied_to panic left = left

  -- How the client's side is left whose own target is dialled.
  abbrev pub direct_client : Stream → Dial → Stream
  direct_client s timed_out = refused s ResponseCode.connection_refused
  direct_client s (failed kind) = refused s failure
  direct_client s (connected target) =
      let replied = record s { output = s.output ++ socks_reply success } in
      copied_to (return_value env (env.copy_bidirectional replied target).0)
        (env.copy_bidirectional replied target).1

  pub finished :
      (time_out : Option ℕ) (c : Stream) (b : Option ConnectionStatsBanlancer)
      (r : Outcome KittyProxyError ℕ) (left : Stream)
      → r ≢ panic
      → handle_client env time_out (record { client = c; balancer = b })
        ≡ (r, record { client = left; balancer = b })
      → serve_client env time_out (record { client = c; balancer = b })
        ≡ (ok tt, record { client = copied_to r left; balancer = b })
  finished time_out c b (ok n) left fine e = unfold serve_client in rw (e, serve_client) (rw e)
  finished time_out c b (err f) left fine e = unfold serve_client in rw (e, serve_client) (rw e)
  finished time_out c b panic left fine e = absurd (fine refl)

  pub return_value-ne-panic : (r : Copied) → return_value env r ≢ panic
  unfolding return_value
  return_value-ne-panic (copied s_to_t t_to_s) h = cc
  return_value-ne-panic (copy_failed unexpected_eof) h = cc
  return_value-ne-panic (copy_failed broken_pipe) h = cc
  return_value-ne-panic (copy_failed connection_reset) h = cc
  return_value-ne-panic (copy_failed ErrorKind.connection_refused) h = cc
  return_value-ne-panic (copy_failed not_connected) h = cc
  return_value-ne-panic (copy_failed unsupported) h = cc
  return_value-ne-panic (copy_failed other) h = cc

-- ===== src/Http/Connect.antt =====
-- `send_connect_req` of src/http_proxy.rs, which nothing calls.
use kitty_proxy.Common.{◌++◌, ◌≡◌, ◌∙◌, refl, ap, Option, none, some, Option-cases, inl, inr, arith}
use kitty_proxy.Common.Outcome.{Outcome, ok, err, panic, and_then, unwrap}
use kitty_proxy.Text.{Text, codes}
use kitty_proxy.Types.{Address, Ipv6Addr}
use kitty_proxy.Types.Display.{display}
use kitty_proxy.Socks.Stream.{Stream}
use kitty_proxy.Http.Crates.{Hyper, Request}
use kitty_proxy.Http.{HttpEnv}

-- `uri_from_str` parses a URI; `ipv6_to_string` is the standard library's form of an IPv6 address.
module _ (x : Hyper) (env : HttpEnv x) (uri_from_str : Text → Option x.Uri)
    (ipv6_to_string : Ipv6Addr → Text) where
  -- `Request::builder()`: no headers, an empty body.
  connect_req : Address → Option (Request x)
  connect_req target_host =
      elim (uri_from_str (codes "http://" ++ display ipv6_to_string target_host)) [
        | none ↦ none
        | some uri ↦ some (record { method = codes "CONNECT"; uri = uri; headers = λ name. none })
      ]

  -- `sender.send_request(req).await.unwrap()`, whose answer is dropped.
  answered : Outcome x.Error x.Body → Outcome x.Error (Unit {0})
  answered (ok resp) = ok tt
  answered (err e) = panic
  answered panic = panic

  pub send_connect_req : Address → Outcome x.Error (Unit {0})
  unfolding connect_req answered
  send_connect_req target_host = and_then (unwrap (env.connect target_host)) λ target_stream.
      and_then (env.handshake target_stream) λ sender.
        and_then (unwrap (connect_req target_host)) λ req. answered (env.send_request sender req)

  answered-ne-err : (r : Outcome x.Error x.Body) (e : x.Error) → answered r ≡ err e → ⊥
  unfolding answered
  answered-ne-err (ok resp) e h = cc
  answered-ne-err (err f) e h = cc
  answered-ne-err panic e h = cc

  requested-ne-err :
      (req : Option (Request x)) (sender : x.Sender) (e : x.Error)
      → and_then (unwrap req) (λ r. answered (env.send_request sender r)) ≡ err e
      → ⊥
  requested-ne-err none sender e h = cc
  requested-ne-err (some req) sender e h = answered-ne-err (env.send_request sender req) e h

  -- Every error that it returns is one of the handshake: a target that is not reached, a URI that does
  -- not parse and an exchange that fails panic.
  pub send_connect_req-err :
      (target_host : Address) (e : x.Error)
      → send_connect_req target_host ≡ err e
      → (stream : Stream) × (env.connect target_host ≡ some stream) × (env.handshake stream ≡ err e)
  unfolding send_connect_req
  send_connect_req-err target_host e h = elim (Option-cases (env.connect target_host)) [
    | inl refused ↦ absurd (clash refused)
    | inr (stream, reached) ↦ (stream, reached, spoken stream (env.handshake stream) refl reached)
  ]
    where
      clash : env.connect target_host ≡ none → ⊥
      clash refused = ground (arith, h, refused)

      spoken :
          (stream : Stream) (r : Outcome x.Error x.Sender)
          → env.handshake stream ≡ r
          → env.connect target_host ≡ some stream
          → env.handshake stream ≡ err e
      spoken stream (ok sender) s reached =
          absurd (requested-ne-err (connect_req target_host) sender e (rw (reached, s) at h))
      spoken stream (err f) s reached =
          let same : f ≡ e = ground (arith, h, s, reached) in s ∙ ap err same
      spoken stream panic s reached = ground (arith, h, s, reached)

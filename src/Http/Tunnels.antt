-- ===== src/Http/Tunnels.antt =====
-- `tunnel` of src/http_proxy.rs: what a CONNECT request starts, directly or through a node.
pub mod Upgrade
use kitty_proxy.Common.{
  ℕ, List, [], ◌∷◌, ◌++◌, ◌≡◌, ◌≢◌, refl, Bool, true, false, Bool-cases, inl, inr, Option, none,
  some, if◌then◌else◌,
}
use kitty_proxy.Common.Outcome.{Outcome, ok, err, panic}
use kitty_proxy.Text.{Text, codes, starts_with}
use kitty_proxy.Text.Contains.{starts_with-append, starts_with_inv}
use kitty_proxy.Types.{Address, ErrorKind, KittyProxyError}
use kitty_proxy.Socks.Stream.{Stream, write_all}
use kitty_proxy.Socks.Client.{Copied, copied, copy_failed}
use kitty_proxy.Http.Crates.{Hyper, Request}
use kitty_proxy.Http.{Tunnel}

-- The network under a tunnel. A read yields what has arrived, at most 1024 bytes, and nothing at the
-- end; `none` is an error.
pub record TunnelEnv (x : Hyper) : Type 1 where
  pub connect : Address → Option Stream
  pub read : Stream → Option (List ℕ × Stream)
  pub copy_bidirectional : Stream → Stream → Copied × Stream
  pub uri_to_string : x.Uri → Text
  pub version_to_string : Request x → Text

abbrev pub line_end : Text
line_end = 13 ∷ 10 ∷ []

abbrev pub mozilla : Text
mozilla =
    codes
      "Mozilla/5.0 (Windows NT 10.0; Win64; x64) AppleWebKit/537.36 (KHTML, like Gecko) Chrome/58.0.3029.110 Safari/537.3"

module _ (x : Hyper) (env : TunnelEnv x) where
  user_agent : Request x → Text
  user_agent req = elim (req.headers (codes "user-agent")) [
    | none ↦ mozilla
    | some value ↦ elim (x.to_str value) [ none ↦ mozilla | some text ↦ text ]
  ]

  unfoldable pub connect_request : Request x → Text
  unfolding user_agent
  connect_request req =
      codes "CONNECT "
      ++ env.uri_to_string req.uri
      ++ codes " "
      ++ env.version_to_string req
      ++ line_end
      ++ codes "Host: "
      ++ env.uri_to_string req.uri
      ++ line_end
      ++ codes "User-Agent: "
      ++ user_agent req
      ++ line_end
      ++ codes "Proxy-Connection: Keep-Alive"
      ++ line_end
      ++ line_end

  -- The test on the text of the answer: a byte that is not UTF-8 is replaced there by others that are
  -- not ASCII, so the test comes out as on the bytes.
  abbrev pub accepts : List ℕ → Bool
  accepts answer = starts_with answer (codes "HTTP/1.1 200")

  splice : Stream → Stream → Outcome ErrorKind (Unit {0}) × Stream
  splice upgraded target =
      let (c, client) = env.copy_bidirectional upgraded target in
      (elim c [ copied _ _ ↦ ok tt | copy_failed kind ↦ err kind ], client)

  -- The answer of the node is read once.
  after_connect : Stream → Option (List ℕ × Stream) → Outcome ErrorKind (Unit {0}) × Stream
  unfolding splice starts_with
  after_connect upgraded none = (panic, upgraded)
  after_connect upgraded (some (answer, target)) =
      if accepts answer then splice upgraded target else (ok tt, upgraded)

  ask_node :
      Stream → Outcome KittyProxyError (Unit {0}) × Stream → Outcome ErrorKind (Unit {0}) × Stream
  unfolding after_connect
  ask_node upgraded (ok _, target) = after_connect upgraded (env.read target)
  ask_node upgraded (err _, target) = (panic, upgraded)
  ask_node upgraded (panic, target) = (panic, upgraded)

  -- The result, and the client's side as it is left.
  unfoldable pub tunnel : Stream → Tunnel x → Outcome ErrorKind (Unit {0}) × Stream
  unfolding splice ask_node connect_request write_all
  tunnel upgraded t = elim (env.connect t.target_host) [
    | none ↦ (panic, upgraded)
    | some target ↦
        if t.is_direct
        then splice upgraded target
        else ask_node upgraded (write_all (connect_request t.req) target)
  ]

  module _ (upgraded : Stream) (t : Tunnel x) {target asked answered : Stream} {answer : List ℕ}
      (to_node : t.is_direct ≡ false) (reached : env.connect t.target_host ≡ some target)
      (sent : write_all (connect_request t.req) target ≡ (ok tt, asked))
      (read : env.read asked ≡ some (answer, answered)) where
    -- For a tunnel through a node that is reached and takes the CONNECT request, one read of its answer
    -- decides. If that is "HTTP/1.1 200" and whatever follows, the client's side is handed over, to the
    -- node as it is after that read, and the result is that of the copy. If it is not, as for a status
    -- line that is cut off before its code, the tunnel ends well, and not a byte was moved on the
    -- client's side.
    pub tunnel_node :
        ((rest : List ℕ)
          → answer ≡ codes "HTTP/1.1 200" ++ rest
          → tunnel upgraded t ≡ (
            elim (env.copy_bidirectional upgraded answered).0
                as (λ _. Outcome ErrorKind (Unit {0})) [
                  | copied _ _ ↦ ok tt
                  | copy_failed kind ↦ err kind
                ],
            (env.copy_bidirectional upgraded answered).1,
          ))
        × (((rest : List ℕ) → answer ≢ codes "HTTP/1.1 200" ++ rest)
            → tunnel upgraded t ≡ (ok tt, upgraded))
    unfolding tunnel after_connect splice ask_node
    tunnel_node = (
      λ rest e.
          let granted : starts_with answer (codes "HTTP/1.1 200") ≡ true =
            rw e (starts_with-append (codes "HTTP/1.1 200") rest) in
          rw (reached, tunnel, to_node, sent, ask_node, read, after_connect, granted) refl,
      λ other. elim (Bool-cases (starts_with answer (codes "HTTP/1.1 200"))) [
        | inl granted ↦
            let (rest, e) = starts_with_inv answer (codes "HTTP/1.1 200") granted in
            absurd (other rest e)
        | inr refused ↦
            rw (reached, tunnel, to_node, sent, ask_node, read, after_connect, refused) refl
      ],
    )

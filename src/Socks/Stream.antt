-- ===== src/Socks/Stream.antt =====
-- The client's connection as the proxy sees it: the bytes that it will still receive, what ends
-- them, what it has sent, and how the network treats the next writes. `tokio`'s `read_exact`,
-- `write_all` and `shutdown` act on it; their errors are converted by `?`.
use kitty_proxy.Common.{
  ℕ, List, [], ◌∷◌, ◌++◌, Bool, true, Option, none, some, length, take, drop, leb, if◌then◌else◌,
}
use kitty_proxy.Common.Outcome.{Outcome, ok, err}
use kitty_proxy.Types.{ErrorKind, broken_pipe, connection_reset, not_connected, KittyProxyError, io}

pub record Stream : Type 0 where
  pub input : List ℕ
  -- The error of a read past the input: end of file, or a reset.
  pub ending : ErrorKind
  pub output : List ℕ
  -- The sending side is closed.
  pub is_shut : Bool
  -- The fate of the writes and shutdowns to come: `some n` fails after `n` bytes; after the list
  -- they succeed.
  pub faults : List (Option ℕ)

unfoldable pub read_exact : ℕ → Stream → Outcome KittyProxyError (List ℕ) × Stream
read_exact n s =
    if leb n (length s.input)
    then (ok (take n s.input), record s { input = drop n s.input })
    else (err (io s.ending), record s { input = [] })

unfoldable pub write_with :
    List (Option ℕ) → List ℕ → Stream → Outcome KittyProxyError (Unit {0}) × Stream
write_with [] bytes s = (ok tt, record s { output = s.output ++ bytes })
write_with (none ∷ fs) bytes s = (ok tt, record s { output = s.output ++ bytes; faults = fs })
write_with (some n ∷ fs) bytes s =
    (err (io connection_reset), record s { output = s.output ++ take n bytes; faults = fs })

-- A write on a closed sending side fails with `EPIPE`.
unfoldable pub write_all : List ℕ → Stream → Outcome KittyProxyError (Unit {0}) × Stream
unfolding write_with
write_all bytes s = if s.is_shut then (err (io broken_pipe), s) else write_with s.faults bytes s

unfoldable pub shutdown_with :
    List (Option ℕ) → Stream → Outcome KittyProxyError (Unit {0}) × Stream
shutdown_with [] s = (ok tt, record s { is_shut = true })
shutdown_with (none ∷ fs) s = (ok tt, record s { is_shut = true; faults = fs })
shutdown_with (some n ∷ fs) s = (err (io not_connected), record s { faults = fs })

unfoldable pub shutdown : Stream → Outcome KittyProxyError (Unit {0}) × Stream
unfolding shutdown_with
shutdown s = shutdown_with s.faults s

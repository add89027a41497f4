-- ===== src/Socks/Client/Calm.antt =====
-- The parts of `handle_client` in src/socks_proxy.rs that never panic.
use kitty_proxy.Common.{ℕ, List}
use kitty_proxy.Types.{
  ErrorKind, unexpected_eof, broken_pipe, connection_reset, not_connected, unsupported, other,
}
use kitty_proxy.Socks.Stream.{Stream, read_exact, write_all}
use kitty_proxy.Socks.Client.{
  Env, Dial, timed_out, failed, connected, Copied, copied, copy_failed, dialled, forward,
  return_value,
}
use kitty_proxy.Socks.Calm.{Calm, continue-Calm, map_ok-Calm, read_exact-Calm, write_all-Calm}

module _ (env : Env) where
  pub forward-Calm : (buffer : List ℕ) (target : Stream) → Calm (forward env buffer target)
  unfolding forward
  forward-Calm buffer target =
      map_ok-Calm (λ _. _) _
        (continue-Calm (write_all buffer target).0 (λ _. read_exact 2) (write_all buffer target).1
          (write_all-Calm buffer target) (λ _ t. read_exact-Calm 2 t))

  pub dialled-Calm : (d : Dial) → Calm (dialled env d)
  unfolding dialled
  dialled-Calm timed_out = λ p. cc
  dialled-Calm (failed kind) = λ p. cc
  dialled-Calm (connected target) = λ p. cc

  pub return_value-Calm : (c : Copied) → Calm (return_value env c)
  unfolding return_value
  return_value-Calm (copied n m) = λ p. cc
  return_value-Calm (copy_failed unexpected_eof) = λ p. cc
  return_value-Calm (copy_failed broken_pipe) = λ p. cc
  return_value-Calm (copy_failed connection_reset) = λ p. cc
  return_value-Calm (copy_failed ErrorKind.connection_refused) = λ p. cc
  return_value-Calm (copy_failed not_connected) = λ p. cc
  return_value-Calm (copy_failed unsupported) = λ p. cc
  return_value-Calm (copy_failed other) = λ p. cc

-- ===== src/Socks/Request.antt =====
-- `SOCKSReq::from_stream` of src/socks_proxy.rs, in the parts that its comments mark.
pub mod Parts
pub mod Roundtrip
pub mod Closing
pub mod Consumed
pub mod Sound
pub mod Bounds
pub mod Panics
use kitty_proxy.Common.{
  ℕ, ◌+◌, ◌/◌, ◌%◌, List, [], ◌∷◌, ◌++◌, Bool, true, false, ◌||◌, Option, none, some, get_or, ltb,
  ◌==◌, if◌then◌else◌,
}
use kitty_proxy.Common.Outcome.{Outcome, ok, ◌>>=◌, ◌>>◌, pure, raise, lift}
use kitty_proxy.Text.{Text, codes}
use kitty_proxy.Types.{
  KittyProxyError, proxy, error, command_not_supported, addr_type_not_supported, Host,
}
use kitty_proxy.Socks.Stream.{Stream, read_exact, write_all, shutdown}
use kitty_proxy.Socks.Wire.{
  socks_version, no_auth, no_method, AddrType, addr_type_from, SockCommand, sock_command_from,
  be_u16, addr_to_host,
}

pub record SocksReq : Type 0 where
  pub version : ℕ
  pub command : SockCommand
  pub host : Host
  pub port : ℕ
  pub readed_buffer : List ℕ

-- A function that acts on the client's stream.
abbrev pub OnStream : Type 0 → Type 0
OnStream A = Stream → Outcome KittyProxyError A × Stream

-- `{}` of a `u8`
u8_to_string : ℕ → Text
u8_to_string n =
    if ltb n 10
    then (48 + n) ∷ []
    else if ltb n 100
    then (48 + n / 10) ∷ (48 + n % 10) ∷ []
    else (48 + n / 100) ∷ (48 + n / 10 % 10) ∷ (48 + n % 10) ∷ []

-- `method.contains(&no_auth)`
unfoldable pub contains_byte : List ℕ → ℕ → Bool
contains_byte [] b = false
contains_byte (m ∷ ms) b = m == b || contains_byte ms b

-- The answer to the offered methods; `readed_buffer` goes on.
choose_method : List ℕ → List ℕ → OnStream (List ℕ)
unfolding contains_byte write_all shutdown
choose_method readed_buffer method =
    if contains_byte method no_auth
    then (do write_all (socks_version ∷ no_auth ∷ []); pure readed_buffer)
    else (do
      write_all (socks_version ∷ no_method ∷ [])
      shutdown
      raise (error (codes "Socks auth failed.")))

-- Lines 423 to 454: version, methods and the answer.
pub greeting : OnStream (List ℕ)
unfolding choose_method read_exact u8_to_string shutdown
greeting = do
  header ← read_exact 2
  if get_or header 0 0 == socks_version
      then (do method ← read_exact (get_or header 1 0); choose_method (header ++ method) method)
      else (do
        shutdown
        raise (
            error (codes "Not support version: " ++ u8_to_string (get_or header 0 0) ++ codes ".")))

-- `None` closes the stream and is an error, `Some` goes on.
or_close : {A : Type 0} → Option A → KittyProxyError → OnStream A
unfolding shutdown
or_close (some a) e = pure a
or_close none e = do shutdown; raise e

-- Lines 456 to 483: the packet's head. Another version closes the stream, and the parser goes on.
pub request_head : OnStream (List ℕ × SockCommand × AddrType)
unfolding read_exact shutdown or_close sock_command_from addr_type_from
request_head = do
  packet ← read_exact 4
  if get_or packet 0 0 == socks_version then pure tt else shutdown
  command ← or_close (sock_command_from (get_or packet 1 0)) (proxy command_not_supported)
  addr_type ← or_close (addr_type_from (get_or packet 3 0)) (proxy addr_type_not_supported)
  pure (packet, command, addr_type)

-- Lines 486 to 508: what was read, and the address in it.
pub dst_addr : AddrType → OnStream (List ℕ × List ℕ)
unfolding read_exact
dst_addr AddrType.domain = do
  dlen ← read_exact 1
  domain ← read_exact (get_or dlen 0 0)
  pure (dlen ++ domain, domain)
dst_addr AddrType.v4 = do addr ← read_exact 4; pure (addr, addr)
dst_addr AddrType.v6 = do addr ← read_exact 16; pure (addr, addr)

unfoldable pub from_stream : OnStream SocksReq
unfolding greeting request_head dst_addr read_exact be_u16 addr_to_host
from_stream = do
  greeted ← greeting
  (packet, command, addr_type) ← request_head
  (raw, addr) ← dst_addr addr_type
  port ← read_exact 2
  host ← lift (addr_to_host addr_type addr)
  pure (record {
    version = get_or packet 0 0;
    command = command;
    host = host;
    port = be_u16 (get_or port 0 0) (get_or port 1 0);
    readed_buffer = greeted ++ packet ++ raw ++ port;
  })

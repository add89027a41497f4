-- ===== src/Socks/Tests.antt =====
-- Runs of the request parser on concrete clients, and the theorems at them.
use kitty_proxy.Common.{ℕ, List, [], ◌∷◌, ◌++◌, false, ◌≡◌, refl}
use kitty_proxy.Common.Outcome.{ok, panic}
use kitty_proxy.Text.{codes}
use kitty_proxy.Types.{domain, unexpected_eof}
use kitty_proxy.Socks.Stream.{Stream}
use kitty_proxy.Socks.Wire.{connect}
use kitty_proxy.Socks.Request.Roundtrip.{answered, from_stream-encode}
use kitty_proxy.Common.{◌^◌, ◌≤◌, ◌<◌, length, arith}
use kitty_proxy.Socks.Request.Sound.{IsRead, from_stream-IsRead}
use kitty_proxy.Socks.Request.Bounds.{InRange, from_stream_bounds}
use kitty_proxy.Socks.Request.{SocksReq, from_stream}

abbrev pub sending : List ℕ → Stream
sending bytes = record {
  input = bytes;
  ending = unexpected_eof;
  output = [];
  is_shut = false;
  faults = [];
}

abbrev pub to_domain : List ℕ
to_domain = 5 ∷ 1 ∷ 0 ∷ 5 ∷ 1 ∷ 0 ∷ 3 ∷ 2 ∷ codes "cn" ++ 1 ∷ 187 ∷ []

from_stream_test :
    (from_stream (sending to_domain)).0
    ≡ ok (record {
      version = 5;
      command = connect;
      host = domain (codes "cn");
      port = 443;
      readed_buffer = to_domain;
    })
unfolding from_stream
from_stream_test = refl

from_stream_panic_test :
    (from_stream (sending (5 ∷ 1 ∷ 0 ∷ 5 ∷ 1 ∷ 0 ∷ 3 ∷ 1 ∷ 255 ∷ 1 ∷ 187 ∷ []))).0 ≡ panic
unfolding from_stream
from_stream_panic_test = refl

abbrev pub cn_request : SocksReq
cn_request = record {
  version = 5;
  command = connect;
  host = domain (codes "cn");
  port = 443;
  readed_buffer = to_domain;
}

from_stream-encode_example :
    from_stream (sending (to_domain ++ 22 ∷ []))
    ≡ (ok cn_request, answered (sending (to_domain ++ 22 ∷ [])) (22 ∷ []))
unfolding from_stream
from_stream-encode_example =
    from_stream-encode (sending (to_domain ++ 22 ∷ [])) (0 ∷ []) connect (domain (codes "cn")) 443
      (22 ∷ []) (record { open_side = refl; no_fault = refl }) refl refl refl

from_stream-IsRead_example : IsRead (sending to_domain) cn_request (answered (sending to_domain) [])
unfolding from_stream
from_stream-IsRead_example =
    from_stream-IsRead (sending to_domain) (answered (sending to_domain) []) cn_request
      (omega arith) refl

from_stream_bounds_example :
    (443 < 2 ^ 16) × (length to_domain ≤ 519) × InRange (domain (codes "cn"))
unfolding from_stream
from_stream_bounds_example =
    from_stream_bounds (sending to_domain) (answered (sending to_domain) []) cn_request
      (omega arith) refl

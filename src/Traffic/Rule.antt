-- ===== src/Traffic/Rule.antt =====
-- `TrafficStreamRule` of src/traffic_diversion.rs.
use kitty_proxy.Text.{Text, codes}

pub data TrafficStreamRule : Type 0 where
  direct proxy reject : TrafficStreamRule

-- `Display`
unfoldable pub printable : TrafficStreamRule → Text
printable direct = codes "direct"
printable proxy = codes "proxy"
printable reject = codes "reject"

-- ===== src/Lib.antt =====
-- kitty_proxy: a local SOCKS5 and HTTP proxy that sends each connection directly, through one of
-- several nodes, or nowhere.
--
-- The parts and how they interact. `SocksProxy::serve` (src/socks_proxy.rs) accepts clients;
-- `SOCKSReq::from_stream` parses a request; `SOCKClient::handle_client` asks
-- `MatchProxy::traffic_stream` (src/traffic_diversion.rs) for the rule of its host, takes a node from
-- `ConnectionStatsBanlancer` (src/banlancer.rs) where the rule says so, dials, counts the connection
-- and copies bytes. The rules come from the geo files, decoded to the messages of
-- src/v2ray_config.rs, and from the public mutators of `MatchProxy`.
--
-- Which file models what; names are those of the source unless said otherwise.
-- - Types: src/types.rs, addresses, nodes and errors. IP addresses and `Host` are records of bytes
--   and segments; `node_number` is the library-style signed number of this development. Types/Display
--   is the text of an `Address`, the form of an IPv6 address a parameter.
-- - Balancer: src/banlancer.rs. The map of counts is an association list (HashMap); `f32` is the
--   interface `F32` of Balancer/Float, whose laws are those of IEEE 754 division and comparison that
--   the code relies on, with a fixed-point instance. The order in which a Rust map is iterated is a
--   `Visit`, any permutation of the entries. Balancer/Sharing lets any number of tasks count and give
--   back connections in any order, as a step relation: the abstract view of the balancer, from which
--   the SOCKS accept loop and the HTTP tasks draw their counts. Balancer/Serving says which balancers
--   can choose a node, Balancer/Fairness how connections spread over the nodes.
-- - V2ray: the messages of src/v2ray_config.rs that the rules are loaded from.
-- - Traffic: src/traffic_diversion.rs. Crates holds what other crates do, as parameters: CIDR
--   combiners, CIDR parsing, regular expressions, domain roots, protobuf decoding, files. Load is
--   `from_geo_dat`; Load/Said and Load/Verdict describe its result by the sites of the file. Verdict,
--   Addresses, Names and Edits prove what the rules decide; Policy is the abstract view of the rules,
--   four functions from names and two from hosts, and of the mutators. IpNumber is `ip_to_number`,
--   SiteIp is `SiteIp::from_str`, which nothing calls.
-- - Socks: src/socks_proxy.rs. Stream is a connection, with the bytes to come, those sent, and the
--   failures the network has in store; Wire the constants, replies and addresses; Request the parser
--   (Request/Consumed and Sound: what it reads, Bounds: how large its result is); Client the handler
--   and the accept loop, over the results of `accept`: an error, or a client with an `Env` of its own,
--   the network, the rules and the machine that it finds (Client/Fits: what one client does to the
--   balancer, Serving: when the loop goes on; Encoded and Chained: a client from its first byte to its
--   last; Stages: the handler cut where it waits for the network, so that the stop can drop it there,
--   and what is counted then); Proxy is `SocksProxy`, with the stop channel as an event between two
--   clients.
-- - Http: src/http_proxy.rs, from a request to its answer. Crates holds `http` and `hyper`, as
--   parameters; `serve_connection` works on the balancer and the list of tunnels that it starts;
--   Tunnels is what such a tunnel then does, Tunnels/Upgrade the task around it, Connect
--   `send_connect_req`, which nothing calls. Server is `HttpProxy`, and `serve_connection` once more
--   as tasks with program counters, cut where it takes the lock of the balancer: a step relation
--   resumes any task in the environment of that moment, takes a new request in, or drops a task whose
--   client went away. Server/Alone ties the two forms together, Server/Targets says where tasks and
--   tunnels connect to. System is the server with the rules behind their lock: its steps are those of
--   the tasks, which read the rules of that moment, and the mutators of `MatchProxy`.
-- - ProxyExample: src/examples/proxy_example.rs, the whole program.
-- - Text: Rust's `str` as its UTF-8 bytes, with the operations of the standard library that are
--   called. Common: outcomes, lists and bits; `panic` is a value, so a panic is seen by its caller.
--
-- Bounds and fuel. Counts are `usize`: increments wrap at 2 ^ 64, or panic where overflow is checked;
-- both builds are covered by the flag `checks`. Weights are `i8`. `reply_code` keeps the low byte of
-- the code. `Text.Decimal.digits` runs on fuel n + 1, which outlasts the division of n by ten. All
-- other loops are structural.
--
-- Not modelled: the hand-over of a connection to hyper; the texts of errors and the log lines; the
-- generated messages that nothing reads, and build.rs; what has gone over the connection of a client
-- that the stop drops in the middle of a stage. The accept loop of `SocksProxy::serve` awaits each
-- client before the next, so no other client runs between the steps of one.
-- A read, a dial, a copy or an exchange always comes to an end in the model, with a value or an error:
-- that one of them waits for ever is left out.
-- The stop of `HttpProxy` ends its accept loop only, so to its tasks it is that no request comes in.
pub mod Common
pub mod Text
pub mod HashMap
pub mod Types
pub mod Balancer
pub mod V2ray
pub mod Traffic
pub mod Socks
pub mod Http
pub mod ProxyExample

-- ===== src/Lib.antt =====
-- Verification library of the Warren TypeScript SDK: the client-side library that signs requests to the
-- Warren API, discovers relays from signed documents, mints anonymous session tokens and builds the
-- packets of a multi-hop tunnel.
--
-- The parts and how they meet. A client fetches a signed relay list, verifies it
-- (packages/core/src/discovery/verify.ts), accepts it by the policy of stores.ts and selects an exit from
-- it (selector.ts). A multi-hop client verifies a directory of exits instead (multihop.ts), whose nodes
-- the operational key signs, ML-KEM keys included (edge/pq-descriptor.ts), and names an account by an address
-- (identity/ss58.ts). Its token manager
-- (packages/core/src/edge/token-manager.ts) mints tokens ahead of need through the API, whose requests
-- are stamped by the clock of packages/core/src/api/clock.ts. At connect a session walks the tokens
-- (session-walk.ts): each setup sends a token request and reads an exit's reply (control.ts) in frames
-- (frame.ts and frame-v2.ts) whose integers are LEB128 (varint.ts). What the user sees is one phase,
-- reduced from the tunnel's state (packages/core/src/phase.ts, packages/extension/src/phase.ts). The
-- extension's client (packages/extension/src/client.ts) brings a tunnel up through its host process, in
-- the frames of packages/extension/src/host/framing.ts, and points the browser at it; the listeners of
-- browser-routing.ts answer the browser from a stored record, and a host goes through the tunnel by the
-- rules of split.ts.
--
-- The files.
--   Prelude, Prelude/*: native numbers, Boolean tests, lists, integers and bits that the rest shares.
--   Wire/Result, Wire/Number: the RangeErrors of the decoders, and `Number` of a bigint as a double.
--   Wire/Varint, Wire/Varint/*: edge/varint.ts: encodeLeb128 and decodeLeb128, a grammar of LEB128
--     strings, and the theorems between them. The encoder recurses on accessibility of <, the decoder
--     on its input.
--   Wire/Cursor, Wire/Cursor/*: the offset that the decoders move: a reader takes the input and an
--     offset. Its children say what a reader does at a given place.
--   Wire/Frame, Wire/FrameV2 and their children: edge/frame.ts and edge/frame-v2.ts: encodeMultihopFrame,
--     decodeMultihopFrame and their V2, a grammar of frames, and the theorems.
--   Wire/Control, Wire/Control/*: edge/control.ts: encodeIpRequestV7 and decodeControlMessage.
--     TextDecoder and getFloat64 are parameters.
--   Api/Clock, Api/Clock/*: api/clock.ts: ServerClock, applicableOffset, correctedTimestamp. Date.parse
--     is a parameter.
--   Discovery/Json, Discovery/Platform: JSON values, and the record of what the discovery code calls of the
--     platform and of libraries: JSON.parse and JSON.stringify, toLowerCase, the URL test of an IPv6
--     host, UTF-8, hex, Ed25519, base58 and blake2b.
--   Discovery/Fields: what the readers of parsed objects check, as predicates.
--   Discovery/Verify, Discovery/Verify/*: discovery/verify.ts: the node of a list (Node), the checks of
--     verifySignedRelayList, and what they amount to (Read, Sound,
--     Relays).
--   Discovery/Multihop, Discovery/Multihop/*: discovery/multihop.ts: the node (Node), the chain of
--     signatures of a node (Vouch, Signatures), verifyMultihopDirectory, and what a verified directory
--     and its exits have (Read, Backed, Sound, Exits).
--   Discovery/PqDescriptor, Discovery/Ss58 and their children: edge/pq-descriptor.ts and identity/ss58.ts.
--   Discovery/Relay, Discovery/Selector, Discovery/Stores and their children: discovery/relay.ts,
--     selector.ts and stores.ts. Stores takes the verifier as a parameter; Stores/Signed gives it the
--     one of Verify.
--   Tokens/Store, Tokens/Manager, Tokens/Manager/*: edge/token-manager.ts: the manager's state as a
--     record, sessionStack, claim, release, takeCurrentStack (Stack, Take), refresh as a pass over a
--     transport (Refresh), and the invariant of a revoked manager (Sound, Refresh/Fair, Refresh/Safety).
--     SHA-256, the hex encoder and the transport are parameters; the transport includes the minting of
--     one epoch, and its answer brings the manager as other calls have left it meanwhile.
--   Tokens/Walk, Tokens/Walk/End: edge/session-walk.ts: walkSessionTokens.
--   Host/Framing, Host/Framing/*: packages/extension/src/host/framing.ts: encodeNativeFrame and
--     NativeFrameDecoder, JSON a parameter on bytes.
--   Phase, Phase/Vpn: packages/core/src/phase.ts and packages/extension/src/phase.ts.
--   Split, Split/Rules, Split/Pac: packages/extension/src/split.ts: hostMatchesRule, shouldTunnelHost and
--     shouldTunnelRequest on character codes, and the PAC script that buildPacScript writes, as the
--     function that the browser runs; toLowerCase is a parameter.
--   Extension/Values: the values of split.ts and browser-routing.ts for the browser's proxy settings.
--   Extension/Routing, Extension/Routing/*: packages/extension/src/browser-routing.ts: the Firefox listener
--     (Direct), the Chromium one as a step on its memory (Auth, Memory), the routing that is installed
--     and read back (Chromium), what a stored value is taken for (Stored).
--   Extension/Client, Extension/Client/*: packages/extension/src/client.ts: the client and the browser as
--     one state (State), connect (Connect), reconnect, applySplit and disconnect (Release). A call is a
--     step on the state that may throw; each `await` takes the events that happen while it waits, the
--     loss of the host and questions to it. Triples, Stages, Passing, Restore, Waiting and Pointing
--     carry an assertion through the awaits of connect and Connected says how it ends; Yields and
--     Routed are about the run that nothing refuses, Leave about the other calls. The two leak settings
--     are those of packages/extension/src/leaks.ts.
--   Examples in each part: the theorems at concrete inputs.
--
-- Bounds. Bytes are numbers below 256 where a theorem says so. The decoder of integers stops after ten
-- groups of seven bits, so values stay below 2 ^ 70; a double holds the integers below 2 ^ 53. The loop
-- of NativeFrameDecoder runs on fuel, the length of its buffer, of which each turn takes four bytes or
-- more, and the decimal of a safe integer on 16 digits; every other loop is structural or recurses on
-- accessibility. Sums of relay weights are exact, which in doubles they are below 2 ^ 53, and the rolls
-- of an attempt below 2 ^ 21.
--
-- Not modelled: the API client's transport, cryptography (HPKE, X-Wing, blind RSA, Ed25519), browser and
-- daemon I/O, the extension's messages to its host and their ids, other calls of the user during a
-- connect, the host's session, storage (the bundle of tokens is the object that `persist` hands to
-- JSON.stringify, and its load is left out), and the text of error messages. The browser's `settings.set`
-- is a parameter, and a browser without `settings.get` is left out. Strings are opaque
-- but for equality, save where a test reads their characters: the hosts, rules and addresses of Split
-- and Extension are lists of character codes, and the discovery code takes the codes of a string.
pub mod Prelude
pub mod Wire
pub mod Api
pub mod Discovery
pub mod Phase
pub mod Tokens
pub mod Host
pub mod Split
pub mod Extension

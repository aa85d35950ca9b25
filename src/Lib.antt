-- ===== src/Lib.antt =====
-- bamboo: a framework for chained Byzantine fault-tolerant protocols. This library models the parts
-- of it that decide what is committed, and proves what makes them correct.
--
-- The parts and their files, which are Lib.antt's siblings:
--   Types         the records that the packages exchange: blockchain/block.go (Block),
--                 blockchain/quorum.go (Vote, QC), pacemaker/model.go, types/, identity/, crypto/id.go
--   Crypto        crypto/sign.go: PrivSign, PubVerify, VerifyQuorumSignature over two tables of keys
--   Election      election/: Static and Rotation
--   Blockchain    Block: block.go and container.go; Forest: leveled_forrest.go and vertex.go;
--                 Quorum: quorum.go; Chain: blockchain.go
--   Pacemaker     pacemaker/: the current view and the tallies of timeouts and view changes
--   Mempool       mempool/: the pool of waiting transactions, the payloads and the Bloom filter
--   Chained       what hotstuff/hotstuff.go, tchs/tchs.go and fasthostuff/fhs.go have in common: the
--                 fields (State), certificates (Certificate), view changes (Views), votes (Votes),
--                 steps of a proposal (Proposals), the log of committed blocks (Log), and
--                 the states a replica reaches (Progress, Later)
--   Hotstuff      hotstuff/hotstuff.go: the rules (Rules), processCertificate (Certificate), votes
--                 (Handlers), blocks and timeouts (Blocks)
--   TwoChain      what tchs/ and fasthostuff/ have in common: the commit of two consecutive views
--   Tchs, Fhs     tchs/tchs.go and fasthostuff/fhs.go: their rules and handlers
--   Replica       replica/: the handlers of messages (Handlers), the event loop, the proposals and the
--                 listeners (Loop), with HotStuff as the protocol (Progress)
--   Notarized     what streamlet/streamlet.go and lbft/lbft.go have in common: the notarized chain
--                 (Chain), processCertificate (Certificate), blocks, votes and timeouts (Blocks)
--   Streamlet     streamlet/streamlet.go: the broadcasts (Spread), the proposals, the variant of the
--                 shared handlers (Replica)
--   Lbft          lbft/lbft.go: its variant and its proposals
--   Identity      identity/identity.go: the text of a node id and the number read back from it
--   Config        config/config.go: the addresses of the nodes and who is Byzantine
--   Socket        socket/socket.go: sending and receiving under injected faults; its Retry is that of
--                 utils/utils.go
--   Node          node/node.go: the two channels and the registered handlers; Http: node/http.go
--   Transport     transport/transport.go: what its schemes share, and the scheme "chan"
--   Client        client.go: the check that the nodes' histories of a key agree
--   Db            db/db.go: the store of commands and which commands conflict
--   Prelude, Outcome, Exec are shared: tests and maps on numbers, how a call ends, and methods that
--   change an object and may fail half way
--
-- How the parts work together: a protocol hands blocks to the chain and votes to its quorum; a quorum
-- of votes is a certificate; a certificate raises the preferred view and may commit a block, which
-- walks down the forest, forgets the votes of what it commits and prunes what is below. In Streamlet
-- and LBFT a certificate notarizes its block, and three notarized layers in consecutive views commit. The pacemaker
-- collects timeout and view-change messages and says when the view advances; the election says who
-- leads a view. Below them a node takes messages from its socket and calls the replica's handlers, the
-- socket sends to the transports of the addresses that the configuration gives, and both name nodes
-- by the ids of Identity, which the other parts read as numbers.
--
-- How code becomes definitions. A Go function is a function of the same name in snake case; a method
-- that changes its receiver takes the state and returns it beside the outcome. A Go error is `err`; a
-- nil dereference, an index out of range and the exit of log.Fatalf are `fault`. A map is a function to
-- Option, or an association list where it is counted or ranged over, whose order stands for the order
-- in which Go ranges. Containers of the forest are shared by pointer: they live in a heap, and the maps
-- hold their addresses. A block's CommitFromThis is written through a pointer: flag_commit writes it in
-- the forest. Channels and the network are the lists of what was sent. A `Send` of a timer is a message with its delay, and a
-- started `go AdvanceView` is an entry of a list that may run at any later step. Views are
-- non-negative; counters are unbounded.
--
-- Fuel. The walk of CommitBlock and the first loop of PruneUpToLevel run on fuel, and in a levelled
-- forest fuel above the block's view is enough. The iterator's loop has one round for each container
-- and one to see the end, which is enough. ProcessBlock and ProcessRemoteVmo of the chained
-- protocols call each other, and so do ProcessBlock and processCertificate of Streamlet and LBFT:
-- `calls` gives them a depth, and the theorems on handlers hold at every depth. The loops of the
-- broadcasts have one round for each node, and that of updateNotarizedChain has one for each layer and one
-- to end. The digits of a number have one round for each unit of the
-- number, which is more than its digits; Retry has one round for each attempt.
--
-- What is a parameter: the ECDSA keys (Keys), the hash of a block and of a view, the bit set of the
-- Bloom filter, the configuration.
-- Random numbers (the chances of the socket, the picks of a multicast) are parameters, and so is
-- whether a node answers when it is dialled, and what an HTTP request of a client brings back.
-- Not modelled: updateLastVotedView, which nothing calls; the status lines; the measuring timers and
-- the statistics of replica/; the tcp and udp connections of transport/, which the net and gob packages
-- make; the JSON of the configuration, logging, the other requests of clients and benchmarks, which are
-- input and output; the locks, since each call that takes one holds it from its first read to its
-- return; the bounds of channels, at which a sender waits. The handlers of a protocol run one after the
-- other, each as one step. The replica calls them from its loop, and takes no lock when it calls
-- ProcessLocalTmo from the goroutine that listens to the timer: where the two overlap, the protocol can
-- be left in any state (Overlapping of Replica/Progress).
pub mod Prelude
pub mod Outcome
pub mod Types
pub mod Exec
pub mod Db
pub mod Identity
pub mod Socket
pub mod Node
pub mod Config
pub mod Transport
pub mod Crypto
pub mod Election
pub mod Blockchain
pub mod Pacemaker
pub mod Mempool
pub mod Chained
pub mod Hotstuff
pub mod TwoChain
pub mod Tchs
pub mod Fhs
pub mod Replica
pub mod Notarized
pub mod Streamlet
pub mod Lbft
pub mod Client

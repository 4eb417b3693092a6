-- ===== src/Lib.antt =====
-- A verification library for the distributed chat application: servers that find each other by
-- broadcast, elect a leader, and exchange messages over a reliable unicast and a causally ordered
-- multicast. The multicast acknowledges over the unicast; a server changes its state by the
-- messages that both hand to it.
--
-- Files, by the code they are about (paths from the repository's root):
--   * Message and its children: server/message/message.go. `Message` is the struct with every
--     field; encode and decode are Encode and Decode, with one function for each kind of body;
--     Message/New has the New...Message constructors.
--   * Unicast/Datagram, Unicast/Codec: Message, encodeUnicastMessage and decodeUnicastMessage of
--     server/unicast/unicast.go. Wire has the 36-byte id fields of unicast and multicast.
--   * Unicast/Listener: reliableListener. A round of `start` is `receive`; after the datagram is
--     decoded it is `on_message`; what it sends to channels is a list of events.
--   * Unicast/Sender: reliableSender. `send` is split where the code releases its lock, into
--     `begin_send` and `send_loop`; `on_s_ack` and `on_l_ack` are the two cases of ackListener,
--     `handle_dead_node` is handleDeadNode.
--   * Unicast/EndToEnd: a sender and a listener together, with their datagrams in
--     Unicast/EndToEnd/Datagrams.
--   * Multicast/Datagram, Multicast/Codec: Message and its encoding in
--     server/multicast/multicast.go.
--   * Multicast/Clock: CanDeliver, with the rule of causal broadcast in Multicast/Clock/Causal.
--   * Multicast/HoldBack: the loop of DeliverMessages over the hold-back queue.
--   * Multicast/Node: ReliableMulticast and its methods OnAck, DeliverMessages, RemoveDeadNode,
--     AddNewNode, HasPeer and VectorClock; Multicast/Send: SendMessage and its goroutine; Multicast/Listen:
--     StartListener and its goroutine.
--   * Multicast/Reach: the steps of one node in any order, and the messages that a run delivers.
--   * Multicast/Group: the nodes of a session and the datagrams between them. A `World` has the
--     state of each node, the goroutines of its listener, its log, and all datagrams that were
--     written; a `Move` is one step of one node: a locked part of SendMessage, of StartListener or
--     of its goroutine, OnAck, or RemoveDeadNode. A datagram may arrive at any time and any number
--     of times, or never.
--   * StateMachine: server/state_machine.go, with the table as `transitions` and ChangeTo as
--     `change_to`.
--   * Broadcast: server/broadcast/broadcast.go: Start, Stop and the sending goroutine as
--     `start`, `stop` and `sender_round`, and listen and IsAnyOneBroadcasting over what arrives.
--   * Server: the state of server/server.go with handleDeadServer, and the election of
--     server/state_listener.go (Server/Election/Winner: with isHighestID; Server/Election/Outcome:
--     over the servers of a session); Server/Join:
--     connectToLeaderHandler and what a new node does with the leader's message; Server/Handlers:
--     the message listeners of server/unicast.go and server/multicast.go.
--   * Server/Actions: the methods of server/server.go that the transitions start, as `act`;
--     `enter` is the round of the main loop in Run, with the Stop and Start of the listeners in
--     server/state_listener.go; `drive` is a call of ChangeTo with the calls that follow from it;
--     peerInfoFromLeader of server/unicast.go. Server/Start: NewServer and getRandomUDPPort.
--   * Server/Machine: main.go up to the call of Run, and NewServer with its sockets; Server/Process:
--     main.go at a signal, with the Shutdown methods of all parts; and emptyChannel,
--     KillLeaderAfter and KillFollowerAfter of server/server.go.
--   * Server/Listeners: what LEADER and FOLLOWER wait for in server/state_listener.go;
--     Server/Heartbeats: the leader's table of heartbeats there, and server/heartbeat.go.
--   * Server/Clients: server/client.go, getRandomPeerID, and startMutlicastSender of
--     server/multicast.go. Server/Address: server/utils.go.
--   * ChatClient: client/client.go. ChatClient/Chat: a chat message through all parts.
--     ChatClient/Causal: the chat messages of a session of several nodes, from the multicast through
--     the message listener of a server and the sessions of its clients to the screen of one of them, and back in ChatClient/Causal/Sent.
--   * Go and its children: what the code uses of the language and its standard library: results
--     with errors and panics, strings as bytes, maps, fmt.Sprintf("%s%d"), encoding/binary,
--     bytes.Reader, bufio.Scanner and strings.SplitN. Prelude: shared names, tests, lists.
--
-- Numbers are native naturals; a fixed-width integer has its wrap written out. A string and a
-- []byte are lists of naturals. `make` panics on more than 2^48 bytes, the limit of linux/amd64;
-- running out of memory below that limit is left out, as are log lines, sockets, locks and
-- blocking channels. `panic` also stands for log.Panic and log.Fatal. A map is an association
-- list, and the order of a range over it is the order of that list.
--
-- Concurrency: the parts of the code that run under a lock are single steps. In the retry loops of
-- send and of SendMessage the other goroutines may change the state during the sleep in any way
-- (`Round.others`), and each write may fail. Where a goroutine waits in a select, a list says which
-- cases come in which order, with the times of the timers. An action and the round of the main
-- loop for the state that it sends are taken one after the other.
--
-- Parameters: uuid.Parse and net.ParseIP, which are libraries, are tests on strings (`is_uuid`,
-- `is_ip`); the text of an address is `to_string`; what rand.IntN and the network give is an argument.
--
-- Fuel: the loop of send gets 21 rounds, which are enough because it ends at 20 tries. The loop
-- over the listener's buffer gets 2, which are enough because the index it looks for does not
-- change and is deleted in the first round. DeliverMessages gets one round for each message of the
-- queue, since each round but the last takes one out. The goroutine of SendMessage has 20 rounds,
-- as in the code. `drive` and `visits` take one element of a list for each action and each
-- connection; the theorems about them give lists that are long enough.
--
-- Not modelled: what goes over the sockets, but for the datagrams; the terminal of the chat client;
-- Debug and the log; server/tests/mock-router.go, a program that stands in for a network. A session's goroutine that reads
-- a line is one turn with its two sends.
pub mod Prelude
pub mod Broadcast
pub mod Go
pub mod Message
pub mod Wire
pub mod Unicast
pub mod Multicast
pub mod StateMachine
pub mod Server
pub mod ChatClient

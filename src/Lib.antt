-- ===== src/Lib.antt =====
-- Nullchat: a chat client and its server, in C++ with Qt. The library models the wire protocol, the
-- server, and the client with what its widgets keep.
--
-- The parts and how they interact. A client (src/client/network/ClientNetwork.cpp) writes packets to a
-- TCP socket; a packet is a header of six bytes and a JSON text (src/common/Protocol.cpp). The server
-- (src/server/Server.cpp) has a session for each connection (src/server/Session.cpp), which cuts the
-- bytes into packets and hands each to a handler. Handlers ask the database (src/server/Database.cpp),
-- and write packets to other sessions, which the registry of the server finds by user id, or to all
-- members of a group (src/server/GroupManager.cpp). The receiving client emits signals; its window
-- (src/client/ui/MainWindow.cpp) keeps messages in a store (src/client/store/MessageStore.cpp) and lists
-- contacts and members.
--
-- Which file models what:
--   Base       shared names: tests, lists and texts over the native numbers, `Result`, maps, integers
--   Qt         what the program uses of Qt: byte order, JSON, UUIDs; a parameter with stated laws
--   Protocol   src/common/Protocol.h and .cpp: `MessageType`, `Packet`, `serialize`, `deserialize`
--   Protocol/Framing  the loop of `Session::onReadyRead` and of `ClientNetwork::onReadyRead`
--   Crypto     src/common/Crypto.cpp; OpenSSL is a parameter with stated laws; Ecdh and Rsa: key pairs
--   ClientCrypto, P2P  src/client/crypto/ClientCrypto.cpp and src/client/network/P2PManager.cpp
--   Database   src/server/Database.cpp: `registerUser` is `register_user`, and so on
--   Server     State: src/server/Server.h and Session.h; Groups: GroupManager.cpp; Handlers:
--              `Session::handlePacket` and the handlers; Events: what sockets do to the server;
--              Lifecycle: `Server::start` and `Server::stop`; Main: src/server/main.cpp
--   Message    the record of src/common/Message.h that the client's parts exchange
--   Client     src/client/network/ClientNetwork.cpp: sending; Receive: `handlePacket` and the slots;
--              Connect: `connectAndLogin` and `connectAndRegister`
--   Store      src/client/store/MessageStore.cpp, the contract that it implements, and what one run
--              of the client leaves for the next
--   Ui         src/client/ui: ContactList.cpp, MemberList.cpp, LoginDialog.cpp; Chat: ChatWidget.cpp;
--              Splash: ASCIISplash.cpp; and of MainWindow.cpp: Version: `isNewerVersion`; Config: the
--              configuration file; MainWindow: the slots; MainWindow/Login and Unlock: logging in, and
--              the saved session with its PIN; MainWindow/Requests and Updates: the other slots;
--              MainWindow/Construct: the constructor; Widgets: the widgets that the constructors under
--              src/client/ui make, ServerBar.cpp included, as trees of Qt/Widgets
-- A function has the name of the source in snake case. Methods are functions from the state before to
-- the state after; sending appends to a list of what has been written. `Examples` modules hold tests.
--
-- Bounds and fuel. Numbers are natural numbers; a packet's length is cut to 32 bits where the source
-- does, and theorems about packets ask for bodies of less than 2 ^ 32 bytes. The packet loop runs on
-- fuel, for which the buffer's length is enough: each round takes a header away.
--
-- Failures. SQL statements fail as the list `faults` of the model foretells. `deserialize` and the
-- functions of Crypto return a `Result`; a read behind the end of a vector and a write to a null
-- socket are outcomes of their own.
--
-- What a user answers in a dialog and what the network does during a blocking call are arguments. A
-- window remembers whether a pointer that nothing has set has been read.
--
-- Not modelled: TLS, the paths of the database files, OpenSSL's own initialisation and the freeing
-- of its objects, the painting of widgets and the computation of their layouts, which are Qt's, the
-- event loops, the `main` of the client, which shows the window, the empty class of
-- src/server/P2PNegotiator.h, the JavaScript server, packaging, and the time columns of the
-- server's tables.
pub mod Base
pub mod Client
pub mod ClientCrypto
pub mod Crypto
pub mod Database
pub mod Message
pub mod P2P
pub mod Protocol
pub mod Qt
pub mod Server
pub mod Store
pub mod Ui

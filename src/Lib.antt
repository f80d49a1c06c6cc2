-- ===== src/Lib.antt =====
-- A model of Deep Messenger, a peer-to-peer messenger over tor hidden services, and what is proved
-- of it. A client or a mailbox talks to another over a connection (src/prot_main.c), which holds a
-- queue of messages to receive and one of messages to send. Each kind of message gives the
-- connection callbacks. A connection is reached through the tor client's SOCKS5 port
-- (src/socks5.c); a transaction (src/prot_transaction.c) gives it an identifier that later
-- messages carry and sign (src/buffer_crypto.c), and an acknowledgement (src/prot_ack.c) answers
-- them; one of the messages tells a mailbox the contacts to accept (src/prot_mb_set_contacts.c). A
-- message between clients (src/prot_message.c) is encrypted for its receiver and signed; it goes
-- to the other client, or to that client's mailbox, which stores its bytes and later sends all of
-- them in one list (src/prot_message_list.c). Clients become contacts by friend requests
-- (src/prot_friend_req.c), open and delete accounts at a mailbox (src/prot_mb_acc_register.c,
-- src/prot_mb_acc_granted.c, src/prot_mb_acc_delete.c), and ask a mailbox or a contact for what
-- waits for them (src/prot_mb_fetch.c, src/prot_client_fetch.c). Onion addresses (src/onion.c) are
-- a public key in base32 (src/base32.c). Hooks (src/hooks.c) report events of a connection to the
-- application, whose prompt is src/ui_prompt.c, whose menus are src/ui_menu.c and whose log is
-- src/ui_logger.c; its windows are a stack (src/ui_stack.c), and a line that is typed is a command
-- (src/cmd_parse.c), and src/app_actions.c says what it does with events; src/array.c is its
-- dynamic arrays. The queues are linked nodes (src/queue.c), and src/helpers.c shares the screen's
-- columns out.
--
-- Files: ProtMain and its children model prot_main.c: ProtMain the state (struct prot_main is
-- Pmain, struct prot_recv_handler Recv, struct prot_tran_handler Tran), ProtMain.Write freeing and
-- sending (bev_write_cb is prot_main_bev_write_cb), ProtMain.Read receiving (bev_read_cb is
-- prot_main_bev_read_cb), ProtMain.Connect beginning a connection and the objects that are made
-- for messages, ProtMain.Receiving, ProtMain.Sending, ProtMain.Freeing and ProtMain.Emptied what
-- is proved of them. Transaction, Ack, BufferCrypto, Socks5, Onion, Base32, Hooks, Array, Queue,
-- Helpers, Prompt, Menu, Logger and Stack model the file of their name, Command cmd_parse.c, App
-- the hooks and the synchronisation of app_actions.c, SetContacts prot_mb_set_contacts.c,
-- BufferCrypto.Envelope the RSA half of buffer_crypto.c, Message prot_message.c with the objects
-- of db_message.c, db_contact.c and db_mb_message.c in Message.Objects, and MessageList
-- prot_message_list.c (recv_handle is message_handle and list_handle; tran_setup message_setup and
-- list_setup; tran_done message_done and list_done); FriendRequest models prot_friend_req.c,
-- MbAccount the three files of mailbox accounts, with what a client sets out with in
-- MbAccount.New, and Fetch the two requests to fetch, with what signed requests have in common in
-- SignedRequest (in each, x_setup, x_done, x_handle and x_cleanup are the callbacks of the message
-- x). Prelude holds what they share and Tests the theorems at concrete inputs.
--
-- Database and its children model the db_*.c files over Sqlite, which holds the statements they
-- make: a statement is what its SQL text says, with the columns in their order, and a parameter
-- that is never bound is null. An error of SQLite ends the process, which is the outcome none;
-- what is relied on of SQLite for a row that is inserted is InsertsRow of Sqlite.Laws, which is
-- only about values that fit the types of their columns (db_init_types of Database) and row
-- identifiers that fit in an int. An identifier is a natural number, which such a theorem takes to
-- be below 2 ^ 31; the record Db that the handlers of messages use takes the queries as they are
-- without an error.
--
-- The two buffers of a bufferevent are lists of bytes. A function of the connection leaves it
-- alive, freed (gone), or has touched an object that is freed or was never set (fault). Callbacks
-- are the record Handlers, over the message objects M and a world W that stands for the database
-- and the application; Transaction and Ack fill it with the callbacks of their messages, and
-- SetContacts takes it as it is. Each callback's effect on the connection is explicit; a hook may
-- change the connection but not the list of hooks being walked. A connection's queues are the
-- lists that the nodes of Queue hold, and the copy that a queue holds of a handler is told from
-- the handler inside the message object by the field queued.
--
-- The loop of the read callback runs on fuel, one more than the bytes that have arrived: each
-- message that is received takes a byte at least off the input. The two loops that free a
-- connection look at the queue anew in each round, since a cleanup may put handlers into it; they
-- run on fuel, the length of the queue and 65536 more, which is enough unless cleanups put more
-- than that in. The loop over a list's messages runs on fuel, one more than the list's length, and
-- each message takes 86 bytes at least. A uint32_t keeps its wrap-around at 2 ^ 32. Bytes are
-- below 256 where a theorem says so, and a size_t keeps its wrap-around at 2 ^ 64. In Helpers an
-- int that would overflow, or an index out of the array, is the outcome undefined. The prompt's
-- window is taken to have at least three columns, a menu's four. In Menu, Logger and Stack the
-- outcome none stands for a read of an item, a line or a window that is not there.
--
-- Parameters, as code of libraries: SHA3-256, SHA-512 and the ed25519 calls of OpenSSL,
-- RAND_bytes, iscntrl, mbstowcs, the memory that realloc adds, the seal and open calls and the key
-- decoding of OpenSSL (the record Cipher), the queries of the database (the record Db) and below
-- them the engine that runs a statement (the record Sqlite), the calls that reach the tor client
-- (the record Network), the generators of keys and the options that a client has stored of itself
-- (the record Own), and what evbuffer_peek reports as a buffer's extents.
--
-- Not modelled: the database's file, the terminal windows, start-up and the tor process, which are
-- calls of SQLite, ncurses and the system; the application's own windows are left out as well.
-- Freeing memory is modelled for connections only: an object that only a callback's end releases
-- is left out of the model.
pub mod Prelude
pub mod Base32
pub mod Onion
pub mod Hooks
pub mod ProtMain
pub mod Transaction
pub mod Socks5
pub mod BufferCrypto
pub mod Ack
pub mod App
pub mod Array
pub mod Command
pub mod Database
pub mod Fetch
pub mod FriendRequest
pub mod Helpers
pub mod Logger
pub mod MbAccount
pub mod Menu
pub mod Message
pub mod MessageList
pub mod Prompt
pub mod Queue
pub mod SetContacts
pub mod SignedRequest
pub mod Sqlite
pub mod Stack
pub mod Tests

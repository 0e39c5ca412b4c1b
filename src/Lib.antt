-- ===== src/Lib.antt =====
-- The school-state currency of schulealsstaat: the API server's ledger of transactions, its student
-- accounts, the gate in front of its actions, its configuration, and the pages of its clients.
--
-- A client posts an encrypted query to the API server. The gate decrypts it, checks the certificate
-- that the action was registered with, and calls the action. Actions read and write the collections
-- of the database. A transaction with a sender is not written by its action: it is announced in the
-- collection of pending transactions and put in a queue in the worker's memory, and a timer writes
-- it when it is the oldest one of its sender and the balance covers it. Each worker keeps a copy of
-- the configuration, which it brings up to date from the log of changes in the database.
--
-- The files and the code they are about:
--   Base            lists, tests and integers over the native numbers.
--   Types           the schemas of server/api/db/students.js and server/api/db/transactions.js, and
--                   the answers of the actions.
--   Server          the server's state, and its actions as functions that pass it on. An action that
--                   stops has no result; what it answered stays in the state. A query or command
--                   while the database is down is DB_error of server/api/db/index.js.
--   Db              server/api/db/students.js and server/api/db/transactions.js, one function for
--                   each of their operations; server/api/db/index.js (Reconnect).
--   Money           HGC_roundup, gross2tax, net2tax and nDecimals of
--                   server/api/actions/transactions.js.
--   Actions         server/api/actions/transactions.js (Transactions: the requests; Queue: the
--                   timer; Accounts: balances and statements), server/api/actions/students.js
--                   (Students, Registration), server/api/actions/polling.js (Polling) and
--                   server/api/actions/common.js (Common).
--   Ledger          what requests and the timer's callbacks do to balances, queue and answers.
--   Cert, Gate      server/common/cert.js and server/api/actions/index.js.
--   Config          server/api/config/index.js, server/api/db/config.js and
--                   server/api/actions/config.js.
--   Checkin         client/common/checkintime.js.
--   Client          client/common/api.js, and its way through the gate.
--   Statement       client/userterminal/site/statement/scripts.js and
--                   client/app/www/js/statement.js, over the answer of get_last_transactions.
--   Batch           the lists of client/business/site/scripts.js (Business) and
--                   client/adminpanel/site/maketransaction/scripts.js (Admin), which share their
--                   rows, events and statistics (Totals).
--   App             client/app/www/js/common.js (also Longpolling), send.js and receive.js
--                   (Page, Payment).
--   NameInput       client/registration/site/scripts.js.
--   RegistrationDesk
--                   client/adminpanel/site/registration/scripts.js.
--   Missing         client/adminpanel/site/missing/scripts.js.
--   StudentList     client/adminpanel/site/studentlist/scripts.js: the search, and the dialog for a
--                   student (Profile).
--   IdCards         client/adminpanel/site/idcards/scripts.js.
--   TransactionSearch
--                   client/adminpanel/site/viewtransactions/scripts.js.
--   EntryCheck      client/entrycheck/www/default/scripts.js, also together with the actions
--                   ec_checkin, ec_checkout and ec_student_get and with Checkin (Shows).
--   Terminal        client/userterminal/site/common.js, and the pages transaction_simple (Payment),
--                   password_change and balance_get (Accounts) beside it.
--   TaxCalculator   client/app/www/js/taxcalc.js.
--   Http            the routing of server/api/main.js.
--   Monitor         server/api/monitor.js.
--   Webcam          server/webcam/main.js.
--   Tests           the functions at concrete inputs.
--
-- Numbers. Money is a natural number of units of 10 ^ -grid_places, which is finer than the settings
-- ask for, and the arithmetic on it is exact. The source computes with floating-point numbers: where
-- it rounds a tax up, an error of the last bit can make the tax one unit of the rounding more than here
-- (its gross2tax of 0.385 is 0.03501). A balance and the amounts of an entry are integers. Times are
-- whole milliseconds. A percentage is a numerator over a denominator.
--
-- Bounds. The loops of the source run over lists and are structural recursion. Only the search for
-- an unused QR-ID in register_student has no bound in the source: try_random has fuel, and without
-- fuel it gives up, which the source does not do. No theorem is about it. The while loop over double
-- spaces has fuel too, for which the length of the text is enough. So have the loops over the places of
-- identity cards, which end without a bound in the source: more than the number of students is enough.
-- A round of the timer starts one chain of at most three callbacks for each element of the queue, which
-- is the bound of `tick`.
--
-- Order of events. The callbacks of a request run to its queueing in one step. A round of the timer
-- first asks for the permission of every element; its callbacks are then steps of their own, in the
-- order in which their queries were sent. Actions.Queue.Defs has them as the moves of an event loop,
-- and `tick` as a round whose callbacks run before anything else; Overlap has two rounds at once, and
-- Ledger.Runs has requests between the callbacks of rounds that do not overlap.
--
-- Parameters. Cryptography, the random source, the certificate files, JSON and regular expressions
-- are arguments of the functions that use them, as are jQuery's requests and the file paths of the
-- webcam server.
--
-- Pages. A page of a client is its variables, what it shows as far as it matters, and the queries it
-- sends; clicks, answers and timers are events, in any order that the page allows.
--
-- Not modelled: the drawing of pages; the admin panel's settings; the console log, sockets and
-- worker processes, network scripts and load tests.
pub mod Base
pub mod Types
pub mod Webcam
pub mod Server
pub mod Db
pub mod Money
pub mod Monitor
pub mod Actions
pub mod Ledger
pub mod Checkin
pub mod Batch
pub mod Cert
pub mod EntryCheck
pub mod Gate
pub mod Http
pub mod Config
pub mod Client
pub mod Statement
pub mod App
pub mod NameInput
pub mod Missing
pub mod RegistrationDesk
pub mod StudentList
pub mod IdCards
pub mod TransactionSearch
pub mod Terminal
pub mod TaxCalculator
pub mod Tests

-- ===== src/Lib.antt =====
-- The self-service launcher of the repository, the messages between its api and its worker, and the
-- scripts that judge a run of terraform or of the tests.
--
-- The program's parts. A visitor presses a button: infra/self-service/src/launch_handler.py issues a
-- nonce, then launches. control.py decides, guard by guard, with the items of one DynamoDB table
-- (store_dynamodb.py) as its state: the kill switch, nonces, the lock, a counter for each day, and the
-- watchdog's record. github.py mints a token, lists the runs with a status of an unfinished run and dispatches a
-- workflow. killswitch_handler.py engages the switch when the budget alarm fires. watchdog_handler.py
-- observes what is billing and does what sweep.py decides: nothing, dispatch a destroy, wait for it,
-- or delete the resources itself. Apart from these, the api (app/src) writes an event to its outbox in
-- the transaction of an item, relays it to a queue, and records the reports that come back; the worker
-- (worker/consumer) writes a receipt for each event, reports it and deletes the message.
--
-- Six scripts judge a run. scripts/fold-timeline.py folds the event stream of each terraform invocation
-- into a timeline, and scripts/sweep_orphans.py compares what AWS says is tagged with what the state of
-- terraform holds; scripts/adopt_orphans.py plans what of that a teardown adopts. scripts/fold-cost.py prices the lifetimes between two timelines,
-- scripts/node-states.py puts the resources of a timeline on the nodes of a map, and
-- scripts/fold-results.py joins the reports of the tests onto their inventory.
--
-- Which file models what:
--   Prelude     Boolean tests, Python's ints, values, sets and dicts, calls that change the world and
--               may raise, and calls of which only the answer matters (Partial)
--   Control     infra/self-service/src/control.py: Interface (exceptions, ControlStore, Decision),
--               Quota (the day of the cap), Decide (decide_launch and its helpers), Laws (what a
--               client of the store relies on), Contract (the whole contract of the store), Safety (what
--               an allowed press means)
--   Store       infra/self-service/src/store_dynamodb.py: Client (the DynamoDB client and its
--               laws), Dynamodb (the class's methods), Refinement and Records (the laws of a launch and of
--               the watchdog), Contract (all of its methods)
--   Sweep       infra/self-service/src/sweep.py: decide_sweep, scope_of, deadline_passed
--   Github      infra/self-service/src/github.py
--   Launch      infra/self-service/src/launch_handler.py
--   Killswitch  infra/self-service/src/killswitch_handler.py
--   Watchdog    infra/self-service/src/watchdog_handler.py
--   Messages    app/src/events.py, the parser of app/src/results.py, worker/consumer/handler.py
--   Worker      worker/consumer/main.py
--   Results     app/src/results.py, the consumer of reports
--   Outbox      app/src/outbox.py, over the row of app/src/models.py
--   Items       the endpoints of app/src/main.py, the patch and the bounds of app/src/schemas.py;
--               Atomic and Pages are about what the endpoints keep
--   Arns        scripts/arns.py, the parser of ARNs
--   Orphans     scripts/sweep_orphans.py: the identifiers of the state (State) and what the sweep of
--               a teardown reports (Findings)
--   Adoption    scripts/adopt_orphans.py: the plan of what a teardown adopts, over tables that are
--               parameters; Once follows an address through the plan
--   Timeline    scripts/fold-timeline.py: the operation and its data, one event (Consume), the files
--               and lines of a stream (Reading), status and reason (Verdict), the documents
--               (Document), one event as a relation (Steps), what the fold keeps (Order, Answers,
--               Pending), when a document is made (Types, Made) and
--               what it lists (Listed)
--   Cost        scripts/fold-cost.py: the timelines and the price of a component, the pairing (Pairing),
--               the row of a resource (Charge), the totals (Build), the attribution to phases
--               (Phases); Rows, Paired, Monotone, Band and Bounds are about what the cost keeps
--   Nodes       scripts/node-states.py: the index of the map, the join (Join), the states of nodes and
--               phases (States), when a node is measured (Measured), and how the resources add up (Counts)
--   Suites      scripts/fold-results.py: the join of a report onto the inventory, the status of a suite and
--               the fold over the suites; Joined is about what they keep
--   Tests       services in memory, and each theorem at a concrete input
--
-- How the code is translated. A method is a function from a world to its outcome (a value or what it
-- raised) and the next world; what was written before a raise stays written. The world is any type:
-- DynamoDB, GitHub, AWS, SQS, PostgreSQL, the session, the json module, the clock and the random texts
-- are parameters, and the laws that are asked of them are records (ClientLaws, HttpLaws,
-- DeliveryLaws, ProjectionLaws, DbLaws, PageLaws, FloatLaws). A method of the code is a definition of its name, and a
-- handler that returns early in several places is a chain of stages, one for each place. Python's ints
-- are ℤ, and times are the natural numbers of seconds. A text that only a reader sees is a constructor
-- of Control.Interface.Message with the values in it.
--
-- Bounds and fuel. The loops over lists are structural. The three loops that run until a signal
-- (Worker.run, Results.run, Outbox.run) take the number of passes, since nothing else ends them; no
-- theorem rests on it. Printing and reading decimals recurse on the number and on the text.
--
-- What is not modelled: logging, sleeping, the heartbeat file, the text of an HTTP error; the health
-- routes, the access log and the lifespan of app/src/main.py; pydantic's trimming; the scripts other
-- than the ones above, the main functions and the readable logs of these, the readers of the test
-- reports; the site, and the declarations for Terraform, GitHub and Kubernetes. Concurrent presses
-- enter as what DynamoDB's conditional writes admit: each call reads and changes the table of one
-- world.
pub mod Prelude
pub mod Arns
pub mod Control
pub mod Store
pub mod Sweep
pub mod Github
pub mod Launch
pub mod Killswitch
pub mod Watchdog
pub mod Messages
pub mod Worker
pub mod Results
pub mod Outbox
pub mod Orphans
pub mod Timeline
pub mod Cost
pub mod Nodes
pub mod Suites
pub mod Adoption
pub mod Items
pub mod Tests

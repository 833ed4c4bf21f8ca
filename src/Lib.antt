-- ===== src/Lib.antt =====
-- Smart HTTP Requester, the HTTP service: a model of its program and the theorems on it.
--
-- The service takes HTTP request tasks from authenticated users, stores them in PostgreSQL and
-- publishes them to RabbitMQ, where workers outside this repository take them. A request passes
-- the rate limiter (middleware/rate_limit.py) and `authorization` (middleware/auth.py), reaches an
-- endpoint (api/v1/requests.py, api/v1/auth.py), which calls a function of domain/, which calls a
-- repository (repository/task.py, repository/auth.py) on the session of services/database.py and
-- the publisher of services/rabbitmq.py. The rows live in the tables of migrations/.
--
-- Which file models what. An asynchronous function is an `Action`: it takes the environment and
-- the state to an outcome, a value or an exception, and a new state; what was changed before an
-- exception stays changed.
--   Session.antt         the state `World`: the stored rows and those that the session sees, the
--                        notifications, the messages sent, the counters; exceptions; `get_db`.
--                        Keeps and Yields are a small logic of what an action keeps of the rows
--   Sql.antt, Tables.antt   statements over lists of rows; the rows of migrations/0001 to 0004
--   Schemas.antt         schemas/task.py and schemas/auth.py: bodies, their validation, responses
--   Broker.antt          services/rabbitmq.py: Publish.antt is `get_rabbitmq` and `publish_task`;
--                        Topology.antt is `setup_rabbitmq_with_retries`
--   Repository.antt      repository/task.py in Rows, Creation, Listing and Task; repository/auth.py,
--                        with the SQL function of migrations/0002, in Auth and Identity
--   Passwords.antt       core/auth.py
--   Middleware.antt      middleware/auth.py in Auth, with Access, Holder and Refusal on whom it lets
--                        in; middleware/metrics.py in Metrics, and `get_endpoint_name` of
--                        services/metrics.py in Endpoint
--   Domain.antt          domain/tasks.py and domain/auth.py in Tasks and Auth; the other modules
--                        below it say what these functions do on each branch
--   Api.antt             api/v1/requests.py, api/v1/auth.py and api/v1/metrics.py in Requests, Auth
--                        and Metrics; Router makes one function of the task endpoints, Service one
--                        of all endpoints, with sequences of calls; Answers is the order in which
--                        the task endpoints refuse a request; Sessions is requests whose
--                        transactions overlap, Admission the stored rows by which
--                        `authorization` decides, Websocket the helpers for websockets, and
--                        Docs the endpoint `token`
--   Tasks.antt           the changes that a request may make to the table `tasks`, as a relation; Map
--                        is the table as a map, a quotient that forgets the order of the rows
--   Writes.antt          the changes that a call of any endpoint may make to the tables, as a
--                        relation, and what every sequence of calls therefore keeps: WellFormed on
--                        the keys and references, Roles on the users, Readable on the tasks,
--                        Lasting on sessions, Bounds on the widths of the columns
--   RateLimit.antt       the script of services/redis_service.py and middleware/rate_limit.py;
--                        Log is the same limiter over the list of the admitted times
--   Application.antt     application.py: the middlewares round all endpoints; Runs is a sequence of
--                        HTTP requests, Assembly the FastAPI object with its layers
--   Lifecycle.antt       application.py: `lifespan`, over the clients of services/redis_service.py and
--                        services/rabbitmq.py, and `database_ping` of services/database.py
--   Logging.antt         services/logger.py
--   Settings.antt        config.py, and the URLs that services/database.py and services/rabbitmq.py
--                        make of the settings; Url is an independent reader of such URLs
--   Tests.antt           runs on a small installation, and the theorems at it
--
-- What is not in the repository is a field of `Env`, for the start and the end of the process one
-- of `Services`, for the log file one of `FileSystem`, for the settings one of `Pydantic`: the
-- clock, the random UUIDs and the order of the rows of a scan of the database, what its driver
-- accepts, pydantic's HttpUrl, Python's UUID and hashlib, bcrypt and argon2, and how each use of
-- RabbitMQ and of Redis goes (a connection, a channel, a declaration or a publication that fails,
-- or a confirmation that is lost). The theorems hold for each of them unless a hypothesis says
-- otherwise. RabbitMQ's routing and its acceptance of declarations are arguments of the theorems
-- in Broker/Topology/Routes.antt, and Unicode's decimal digits are one of
-- Middleware/Endpoint.antt.
--
-- Numbers and bounds: a UUID and a timestamp are natural numbers, the latter in seconds; an
-- `integer` column takes only -2^31 to 2^31 - 1; the length of a user's name is checked, those of a
-- method and a status are not, for the reason in Writes/Bounds.antt. The
-- script of the rate limiter computes in doubles, here with exact numbers, everything times
-- the window; the window is 60 seconds, as its one caller sets it, and the limit is not negative.
-- Every recursion is structural; that of `re.sub` in Middleware/Endpoint.antt is on fuel, as much as
-- the text has characters, and Middleware/Endpoint/Returns.antt shows that this is enough; that of
-- `digits` in Settings.antt is on more fuel than the number, which Settings/Numeral.antt reads back.
--
-- The endpoints run one after the other, but for Api/Race.antt, where a DELETE runs between two
-- statements of a PUT, Api/LoginRace.antt, where a login runs between two statements of another,
-- and Api/Sessions.antt, where any number of DELETE and PUT requests for one task overlap
-- statement by statement, with the end of the POST that creates the task, with workers and with
-- exceptions at any place; Api/Sessions/Alone.antt ties its steps to the functions of the domain.
-- Transactions that overlap in other endpoints are not modelled.
-- Not modelled either: reading the HTTP message and its JSON, the log records, the text
-- that prometheus_client makes of the metrics (an argument in Api/Metrics.antt, where `fake_status`
-- takes the status codes that are not negative), and the connection pool.
pub mod Common
pub mod Sql
pub mod Schemas
pub mod Tables
pub mod Broker
pub mod Session
pub mod Repository
pub mod Passwords
pub mod Middleware
pub mod Domain
pub mod Api
pub mod Tasks
pub mod Writes
pub mod Settings
pub mod RateLimit
pub mod Tests
pub mod Application
pub mod Lifecycle
pub mod Logging

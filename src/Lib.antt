-- ===== src/Lib.antt =====
-- Verification library of neon-tests, the test suite of the Neon EVM: of the Python code that the
-- suites and the commands share, the parts that compute something.
--
-- The parts, and the files that model them:
--
-- - Prelude: the names that all files share: Boolean tests on the native numbers, lists, integers,
--   texts as lists of code points, and dictionaries.
-- - Py: what the code uses of Python: exceptions as the errors of a result type (Py/Outcome), the
--   conversions between integers and bytes (Py/Bytes), hexadecimal text (Py/Hex), `int` and `hex`
--   (Py/Number), `struct.pack` (Py/Struct) and UTF-8 (Py/Unicode).
-- - Rlp: `pack` and `unpack` of integration/tests/neon_evm/utils/eth_tx_utils.py. A Python value is
--   an Item; `unpack` has twice the length of its input and one as fuel, one for every value and one
--   for every list that goes on, which is enough because every value takes a byte at least.
-- - Trx: `class Trx`, `get_int` and `make_keccak_instruction_data` of the same file. The methods are
--   functions of a record; `__str__` is to_string, and raw is what it gives before the hexadecimal.
-- - Instr: utils/instructions.py, and `serialize_instruction` of utils/helpers.py. The builders keep
--   the source's names in lower case (`make_WriteHolder` is make_write_holder). A public key is an
--   element of a type parameter. Instr/Layout and Instr/Serialize read the bytes back.
-- - Loader: utils/evm_loader.py and integration/tests/neon_evm/utils/storage.py. The methods give the
--   list of what is sent and the result. Loader/Writes has the writes of a transaction to a holder
--   account, with as much fuel as there are bytes. Loader/Steps has the iterative executions, where
--   the fuel is a bound on the rounds, since whether they end is up to the chain; the chain's answer
--   to every round is given. In Loader/Steps a step is the one instruction that executes; the
--   instructions of the compute budget in front of it are in Loader/Sends. Loader/Holder has the
--   holder accounts, with Python's recursion limit as fuel.
--   Loader/Addresses has the derived addresses and the reads of accounts, Loader/Deposits the
--   transactions that make balance accounts and move tokens.
-- - ErrorLog: utils/error_log.py, the file as a state; `catch_traceback` (ErrorLog/Traceback) and
--   the OpenZeppelin results (ErrorLog/Openzeppelin) of clickfile.py, which use it.
-- - Results: deploy/test_results_db/db_handler.py, its tables, utils/version.py, and the command
--   save_dapps_cost_report_to_db of clickfile.py.
-- - Cli: the commands run and deploy of clickfile.py, and its download of contracts; Cli/Shell: its
--   commands for the shell; Cli/Allure: the choice of the history; Cli/Openzeppelin: the order and the
--   keys of the tests; Cli/Summaries: the notification (utils/slack_notification.py) and the titles.
-- - Web3: the transactions that `Web3Client` of utils/web3client.py makes, over the answers of a
--   node; Web3/Client: its deployments, its transfers and its properties.
-- - Helpers: the functions on texts of utils/helpers.py.
-- - K6: utils/k6_helpers.py and the command of clickfile.py that runs k6.
-- - Wrapper: the token wrapper of utils/erc20wrapper.py.
-- - Vyper: utils/vyperx.py, the choice of the compiler versions.
-- - Reports: the action names of deploy/cli/cost_report.py; Reports/Prepare: the rest of that file, and
--   parts of deploy/cli/infrastructure.py and deploy/cli/github_api_client.py; Reports/Collector:
--   utils/stats_collector.py.
-- - Clients: the JSON-RPC session of utils/apiclient.py (Clients/Rpc, whose loop has as fuel a bound
--   on the rounds, since the chain decides when a block is finalized), what is tried again in
--   utils/faucet.py, utils/solana_client.py and loadtesting/proxy/common/base.py (Clients/Polling),
--   utils/prices.py (Clients/Prices), utils/accounts.py (Clients/Accounts), the rest of
--   utils/solana_client.py (Clients/Solana) and utils/operator.py (Clients/Operator).
-- - Networks: deploy/cli/network_manager.py. The networks are one value, which the methods that
--   change a network return.
-- - Models: the validators, records and methods of utils/models/. A Python field `neonLogs` is
--   neon_logs.
-- - Load: the load tests of loadtesting/tracerapi/: the collectors of statistics (Load/Events, with
--   that of loadtesting/proxy/common/events.py), the calls (Load/Tracer and Load/Logs), the start of
--   the users (Load/Users), and the preparation of the history (Load/Dump). A random choice is a
--   given position.
--
-- The other libraries are parameters: digests, keys and program addresses, the JSON codec, the
-- versions of the packaging library, the answers of the chain and of GitHub. Where a theorem needs
-- something of them, that is one of its hypotheses.
--
-- Not modelled: the test cases and fixtures, which talk to a running network; the contracts; the
-- user interface; the scenarios of the load tests of the proxy; the calls of cloud and plotting tools;
-- floating point numbers; the widths of the database's columns, which the stored values are taken to
-- fit. Of the digits that the patterns of the Python code match, only the ASCII ones are. The file lock of
-- the error log and the session of the database are not modelled: an operation is one step.
pub mod Prelude
pub mod Py
pub mod Rlp
pub mod Trx
pub mod Instr
pub mod Load
pub mod Loader
pub mod ErrorLog
pub mod Results
pub mod Cli
pub mod Helpers
pub mod K6
pub mod Wrapper
pub mod Vyper
pub mod Web3
pub mod Reports
pub mod Clients
pub mod Networks
pub mod Models

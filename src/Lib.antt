-- ===== src/Lib.antt =====
-- The server of cot: deposits on external chains become assets on internal chains (recharges), and
-- assets that are destroyed on internal chains are paid out on external ones (redemptions). A
-- request is checked against the business configuration and saved as an order; in the order
-- process, an order is an object whose states react to clock ticks, to events of a queue and to the
-- wallet's reports about transactions, and that pays out from accounts which administrators inject.
-- Administrators log in, change users and the configuration, and repair orders that have failed.
--
-- The files, and the code under packages/ that they are about:
--   Base: natural numbers, texts, lists, JavaScript's BigInt and its reading and printing of
--     texts.
--   Model: the data. Enumerations, rows, configuration and messages of core/src and of
--     server/src/common (RechargeOrder is the class of the same name, and so on); Value has the
--     JavaScript values that are checked before they count as data.
--   Host: what the program calls and does not implement (wallet service, queue, Redis, database,
--     the base classes of the wallet SDK), the errors (core/src/exception/errorCode.ts and the
--     texts that are thrown), the monad of the methods, and rules about the calls that an action
--     makes (Keeps), about what it returns (Returns, Yields) and about the answers behind a
--     result (Answers, Reads).
--   OrderHelper, Verify: server/src/helper/order.helper.ts and verify.helper.ts, with OrderHelper/Sent
--     about the transaction that is read.
--   Memory, GlobalValue: server/src/module/memory/memory.service.ts and
--     server/src/module/redis/global-value.redis-repository.ts, the injected keys, and the
--     addresses that other processes ask for (GlobalValue/Addresses). The proofs are in
--     Memory/Injection and, below GlobalValue, in Injection, Accounts, Keys and Store, which
--     compares the accounts with the map of Requests; those of Verify are in Signature, Sorting
--     and LockOrder, the latter about the authorized addresses (AuthInfos).
--   Recharge: server/src/helper/recharge.helper.ts (Helper), recharge.service.ts in
--     server/src/module/recharge (Deposit for rechargeV2, Records, Retry, Pool), its order
--     manager (Manager), the order object and its states (Order). The proofs are in Assets,
--     Details, Orders, Checks, Shown, Reload, LateErrors, Retry/Moves, Pool/Staked, Pool/Sums,
--     and, below Order, in Diagram, Transitions, Payments, Callbacks and Retries.
--   Redemption: the same for server/src/module/redemption and redemption.helper.ts, with
--     Withdrawal for redemptionV2 and Records, and Payouts, Orders, Checks and Retry/Moves for
--     the proofs.
--   OrderApp: server/src/cluster/order/order.app.ts, the reports of transactions, the wait for the
--     queues and the start of the process (Start), with the proofs in Dispatch, Queues,
--     Connections and Ready.
--   Admin: server/src/module/admin, without the configuration: the login and the check of its
--     token (Authorization, with server/src/common/decorator/auth-info.decorator.ts), Users,
--     Orders and System. The proofs are below each: Sessions, Requests, Accounts, Repairs,
--     Restarts, Attempts.
--   Settings: the changes of the configuration, setConfig of the repository above, setRecharge of
--     server/src/module/admin/config/config.service.ts and what onModuleInit of the order process
--     does with it, with the proofs in Chains, Kept, Traversals, Items, Starts and Saved.
--   Validator: RechargeClassVerify of server/src/helper/validator.helper.ts and the checks of
--     nested values there, with the proofs in Items, Results and Accepted.
--   ConfigUpgrade: server/src/config/config-upgrade.helper.ts, with the proofs in Versions.
--   Tests: each theorem at a concrete host and order.
--
-- How the code is read. A method is an action: it takes the host and a world, which holds the object
-- that the method works on and all calls made so far, and gives a value or an error and a new world.
-- An awaited call lets other methods change the object (the world's `others`); a call that is
-- answered at once does not. The host answers each kind of call by any function of the calls so
-- far, so a theorem for all hosts and worlds holds for every order of answers, failures and
-- interleaved changes. The helpers of the source that have no state are functions with a result or
-- an error. Functions have the source's names in small letters, with the receiver left out.
--
-- Bounds. Numbers that the source keeps as `number` (times, counters, decimals) are natural
-- numbers without a bound, amounts are integers as BigInt has them. The loops are structural
-- recursions, with two exceptions. The printing of a number has the number itself as fuel, which
-- is enough, since each step divides it by 10. The endless loop that waits for the queues has a
-- number of rounds, and OrderApp/Queues has the number that is enough. The loop of
-- writeHeapSnapshop counts the tries left, 3 at first.
--
-- Not modelled: log lines, the times of creation and of change in rows, the paging of lists, the
-- caches of decorators, controllers that only pass a request on, the wiring of the framework, the
-- start of processes other than the order process, the commands that processes send to it, its test
-- keys in development, and the validators that rest on how JavaScript reads a text as a number or a
-- date. The wallet SDK, which has the base classes of
-- managers, orders and states, is not in the repository: the calls to it are calls of the host.
pub mod Base
pub mod Model
pub mod Host
pub mod Memory
pub mod GlobalValue
pub mod OrderHelper
pub mod Verify
pub mod Recharge
pub mod Redemption
pub mod Admin
pub mod Settings
pub mod Validator
pub mod ConfigUpgrade
pub mod OrderApp
pub mod Tests

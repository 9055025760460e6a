-- ===== src/Lib.antt =====
-- Verification of the scenario runner of testbed-services: the Python code under scripts/scenarios
-- that compiles fault-injection plans, dispatches their executors live, and judges the runs.
--
-- Parts and files:
--   Common           shared tests, lists and optional values
--   Plan             the compiled plan of scripts/scenarios/compile-plan.py, as its readers see it
--   Dispatcher       scripts/scenarios/trusted_dispatcher.py. Host has the compiler, file system and
--                    executors as a record parameter, the errors and the world; Calls has
--                    _verified_plan, _executor, _invoke, the loops over executors and _write_state;
--                    Dispatch has the two branches of dispatch. Frames carries a relation that single
--                    calls and writes keep over a whole dispatch; Safety, Files, RunEnds, Order,
--                    Complete and Recovery are the proofs, Tests the concrete host.
--   Capsule          the verbs of an executor and its reply, shared by the two that call it
--   Control          scripts/scenarios/profile-control.py. Host has its parameters, files and errors;
--                    Checks has _load, _plan, _instance, _verify_lease and _parameters; Execute has
--                    execute, cut at each call and return. Frames carries a relation over it; Leases,
--                    Fencing, Ends, Idempotence and Retry are the proofs, Tests the concrete host.
--   Replay           scripts/scenarios/replay-success-streak.py. Signals has the conditions on a tick,
--                    Run replay and the --validate part of main; Segments, Verdict, Evidence,
--                    Summary, Candidates, Pace and Validation are the proofs.
--   Boundary         scripts/scenarios/profiles/executor_common.py. Live has its code, with the
--                    executor's builder and validator as parameters; Authorised, Levels, Approved and
--                    Agreement are the proofs, the last on what the dispatcher and the controller
--                    have checked before.
--   Compiler         scripts/scenarios/compile-plan.py. Assembly has the part of compile_plan that
--                    makes the instances and decides whether a plan may run live, ContractDocs
--                    and Contracts validate_contracts and how compile_plan reads what it has accepted,
--                    ControllerDocs and Controllers validate_controllers, Manifests validate_manifest
--                    and Queries the query ids of a plan. Bindings, Accepted, Assembles, Signals,
--                    Ladders, Bound, Manifested, Cleanup and Observed are the proofs. Loading and
--                    digests are not modelled.
--   Audit            scripts/scenarios/audit-run-causality.py. Runs has load_run, Gates the deciding gate
--                    and verdict_window, Names the service names and injection_targets, Host the
--                    parameters and _parse, Shift activity_shift, Ratio causal_check, Arm control_arm
--                    and Report audit_run and the loop of main. Windows, Targets, Silence, Silenced,
--                    Classified, Grounds, Grounded, Raises, Errors and Arms are the proofs, Tests a
--                    run. Quote has _quote and its proof.
--   Recording        scripts/scenarios/recording-guard.py, whole.
--
-- How the code is modelled. A method that reads and writes state is a function from a world to a
-- result and the world that it leaves, also where it raises. An exception is a constructor, with the
-- texts that it is built from. What is not code of the repository (json, hashlib, subprocess, the file
-- system, the clock) is a field of a record that the definitions take; the environment that those
-- fields read may change with each call. The trace of calls and writes is kept for the statements and
-- no definition reads it. Documents read from JSON are records with the keys that the code reads; a
-- key that may be missing is an Option. In the validation of the registry, a value of another type than
-- the one that the code asks for counts as missing, and a rung without parameters is not modelled. There is no fuel: every loop runs over a list.
--
-- In Control, other processes act while the coordinator's lock is waited for (acquire) and between its
-- release and the executor call that follows (release); a process holds the control lock throughout,
-- so the control file is its own. Fencing tokens and level indices are integers, times are natural
-- numbers. The dispatcher and the controller are separate programs: both call executors that the plan
-- names, with the verbs of Capsule.
--
-- In Replay, times and intervals are natural numbers, and the values of signals are abstract with
-- Python's comparisons as parameters; a comparison that raises is not modelled. The difference
-- elapsed - mark is tested as elapsed against mark plus the interval.
--
-- In Audit, floats, the parsing and writing of times, and the trace table are parameters; a query
-- stands as the values that are put into its text. Times are microseconds since 1970 on the natural
-- numbers. A quotient of two counts is compared with a threshold exactly, which is what floats do for
-- counts below 2^40. Quote reads the quoted names by SQL's rule that a doubled quote stands
-- for one; a backslash has no meaning there. The text of a reason, the rounding of a share and the
-- fields of a report that only repeat its input are left out.
pub mod Common
pub mod Plan
pub mod Capsule
pub mod Dispatcher
pub mod Control
pub mod Replay
pub mod Boundary
pub mod Compiler
pub mod Recording
pub mod Audit

-- ===== src/Lib.antt =====
-- A model of mihomo-proxy-management, the program that keeps a mihomo proxy and its groups at work.
--
-- The parts and their files:
-- - Failover: scripts/proxy-auto-switch.py, which measures the nodes of three proxy groups and moves the
--   groups. Failover/Coerce and Failover/Region are its coercions of stored JSON and its regions,
--   Failover/Samples the history of a node (`node_samples` to `need_margin_ms`), Failover/Decide
--   `decide_group`, Failover/State `migrate_state` and `advance_group_state`, Failover/Nodes
--   `update_nodes` and `build_node_stats`, Failover/Plan `plan_switches` and `collect_candidates`,
--   Failover/Receiver `resolve_receive_id`.
--   Failover/Round is `main`: a `World` holds what a run meets (the controller's answers, the clock, the
--   state file, whether the receiver of the alert and the write of the state raise), a `Report` what it did (its
--   PUTs, its alert, the state that it saved).
-- - GroupRefs: scripts/lib/check_group_refs.py, which finds members of proxy groups that name nothing.
--   GroupRefs/Names says what a member may be called.
-- - Manager: linux/python/mpm. Manager/Preflight is `evaluate` of preflight.py, Manager/Health the CN
--   health of lifecycle.py, Manager/Service `start`, `stop` and `restart` of lifecycle.py with the polling of
--   systemdctl.py, where a `Host` holds the answers that an operation meets and an `Operation` its `systemctl start` and `stop`,
--   Manager/Configure and Manager/Uninstall `configure` and `uninstall`, as lists of actions on files and the unit,
--   Manager/Secrets `resolve` of secrets_io.py and Manager/Update `update_subscription` of lifecycle.py.
-- - Convert: scripts/convert_sub.py, which turns a subscription into a list of mihomo proxies. Prelude/Strings and
--   Convert/Uri take a URI apart, Convert/Proxies and Convert/Schemes are the parsers `parse_*_uri`,
--   Convert/Singbox is `convert_singbox_node` with a module for each group of options, Convert/Base64
--   `_b64decode`, Convert/Detect `detect_input`, Convert/Process the three `process_` functions with their
--   counts, Convert/Content `convert_content`, Convert/Merge `merge_proxies`, Convert/Sources the three sources
--   of a configuration, and Convert/Command `merge_into_yaml` and `main`. An error is a constructor of
--   `Error` for each exit code; `raised` is an exception that is no ConvertError.
-- Json and Document are the values that these programs read, Prelude the shared helpers, Tests the concrete
-- inputs.
--
-- How state and effects are written: a dict is an association list, a file or an answer that is missing is
-- `none`, an exception that leaves a function is `none` or a constructor of `Failure`. A run is a function from
-- what it meets to what it does; runs in sequence hand the state file on. Loops are structural recursion, over
-- the list or the number of tries of the source, so that no fuel is needed, but for the search of
-- `merge_proxies` for a free name, whose fuel is one more than the number of names taken.
--
-- What is a parameter: the regular expressions, `datetime.fromisoformat`, `isoformat`, `strip` and `int` of a text
-- (the record `Failover.Library.Library`, with `IsLawful` for what is used of the time codec), `str` methods of the preflight
-- and the secrets (a `Texts` each), Python's `str` of a value that is no text, the parsed cache file of a provider; of the conversion `str`
-- methods, `int`, urllib, base64, json, yaml and the float product of a duration (`Convert.Library.Library`), and
-- the network (`Network`). The theorems on names ask that `str` gives different numbers different texts.
--
-- What is simplified: the thresholds of the command line are not negative; a time is a number of microseconds
-- since 0001-01-01; a finite float is its integer part and its text; the median divides integers exactly, where Python rounds a float; an empty entry of
-- GET /proxies counts as missing; the keys of a YAML mapping are texts; the key "decisions" of the saved state,
-- the log, the printed lines and the rows for charts are left out; the texts of reasons are constructors; a YAML subscription has the values that JSON has; the warnings of the
-- conversion are left out, and its options are given with texts that are not empty. `configure` does not tell why
-- the preflight raises, so that Unsupported counts as a failed rendering behind an update. In
-- legacy mode the state file is read behind the switches, so an error there carries the PUTs that were sent.
--
-- What is not modelled: HTTP, Feishu messages, files and processes themselves; scripts/sync-feishu-bitable.py,
-- scripts/health-check-provider.py and the PowerShell scripts; of linux/python/mpm the
-- rendering of the configuration, the supply of binaries, and the operations of lifecycle.py that
-- are not named above.
pub mod Prelude
pub mod Json
pub mod Document
pub mod Failover
pub mod GroupRefs
pub mod Manager
pub mod Convert
pub mod Tests

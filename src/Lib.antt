-- ===== src/Lib.antt =====
-- The policy core of the Context Control Plane, sdk/python/context_control_plane/kernel.
--
-- A connection profile is a resource document. A request to use it names an access level, a mode
-- and an operation. The request is evaluated against the profile and against the gateway policy of
-- its namespace; the outcome is a decision, which may require an approval. An execution is planned
-- for a decision, if need be under an approval receipt that was issued and signed for exactly this
-- action. What adapters answer, and what is written of secrets, is redacted.
--
--   Resource      resource_registry.py: ResourceDocument and its to_dict; to the policies the
--                 registry is an argument, a record of the two calls that they make. The stability
--                 levels are those of versioning.py.
--   Registry      registry.py and loaders.py. Layers: the order of precedence. Merge:
--                 _deep_merge_mapping, _merge_compatibility, _ordered_provenance. Documents:
--                 InMemoryResourceRegistry, its dictionary as a list of groups; registry_of fills
--                 the record that the policies take. Explain: list_capabilities, explain_resource,
--                 and versioning.py. Loaders: build_resource_document and the reading of files.
--   Discovery     discovery.py: the catalogs of capabilities, contracts and schemas, and the
--                 lookups in them.
--   Packs         packs.py: PackManifest, build_pack_manifest, and the reading of files.
--   Upgrade       upgrade.py. Versions: _version_tuple, _compare_versions, _satisfies_range. Plan:
--                 build_upgrade_plan.
--   Mcp           mcp.py. Profile: McpServerProfile and McpPolicyProfile. Policy:
--                 resolve_mcp_policy. Startup, Report, Tested: build_mcp_test_report, its parts in
--                 their order, and build_mcp_list_records; Tested has the report of mcp_runtime.py
--                 too, and Observed its observe_mcp_runtime and _evaluate_egress, from what becomes
--                 of the process. Manage: add_mcp_resources and disable_mcp_server, on a list of
--                 files. And mcp_proxy.py, in Proxy. Authority: _normalize_destination,
--                 _matches_allowlist, _parse_authority. Server: record_destination. Handler:
--                 _ProxyHandler, as a function from the recorded destinations and a request to the
--                 new ones and a list of effects.
--   Gateway       gateway.py. Rule: GatewayRule.matches. Profile:
--                 GatewayPolicyProfile.from_document. Evaluate: evaluate_gateway_policy. Output:
--                 the written forms and build_gateway_status_records.
--   Secrets       secrets.py. Backend: references, back ends. Resolve: _resolve_backend_ref.
--                 Controls: resolve_connection_secret_controls, issue_materialization_lease.
--                 Output: the written forms.
--   Redaction     secrets.py and tracing.py: sensitive names, texts that look like secrets,
--                 sanitize_secret_value, apply_response_allowlist, sanitize_adapter_payload,
--                 sanitize_trace_value.
--   Security      security.py. Profile: what a profile declares. Policy: _resolve_gateway_policy
--                 and the tests on a request. Evaluate: evaluate_connection_profile. Output: the
--                 written forms.
--   Approvals     approvals.py: ApprovalReceiptRecord, keys and signatures; Receipt:
--                 build_approval_receipt, issue_approval_receipt, validate_approval_receipt.
--   Execution     execution.py. Plan: bindings, notes, settings. Governed:
--                 build_connection_execution_plan. Output: the written forms.
--   Tracing       tracing.py: TraceRecord.to_dict and, of load_trace_record_file, what it does with
--                 the value that the file holds. Summary: summarize_trace_record,
--                 explain_trace_record.
--   Python        what the sources use of the language: Error (exceptions as results), Value (JSON
--                 values), Text (str methods, repr), Json (json.dumps with sorted keys), Pattern
--                 (re.search on sequences of character classes), Runtime.
--   Sorting       sorted() with a key, as the stable insertion of each item by a strict order.
--   Base          names of the libraries, Boolean tests, the conditional.
--   Examples      the theorems at concrete data, and runs.
--
-- The other modules below a part hold its theorems. Runtime is a parameter: the environment, files,
-- the clock, datetime, hashlib, hmac and uuid4. So are Registry.Loaders.Files (the files of a
-- directory, json.loads), Mcp.Startup.Host (shutil.which, Path.exists, urlparse) and
-- Mcp.Proxy.Handler.Network (urlsplit, and whether a connection succeeds). What the theorems ask of
-- it is written in Approvals.Issue.IsLawful and Approvals.Binding.HasDigests, and Examples.Machine
-- has a machine with both. A time is a number of microseconds. An exception is an error value with
-- its message; a registry may raise too.
--
-- The one loop on fuel is decimal, which writes a number n: its fuel n + 1 is enough, as each digit
-- divides the number by ten.
--
-- Not modelled: floats in JSON; lower() of letters that are not ASCII, and \w of them; repr of
-- characters above 160 that are not printable; fractions of a second in timestamps that are
-- written; the OverflowError of a time past the year 9999; letters that are not ASCII and match an
-- ASCII one without regard to case, in the patterns of secrets; the normalisation of a path by
-- Path. Mappings are those of JSON, with text keys. In the proxy: isdigit of digits that are not
-- ASCII, the limit of 65536 bytes on a line, the relay of bytes, and the start and the end of the
-- server; its threads record one destination at a time, under a lock, so that their interleavings
-- are sequences of requests. The process of an MCP server, what lsof shows of it and the snapshot
-- of its proxy are data of Mcp.Observed, and so is the plan of its sandbox, whose construction is
-- left out; a file that is added or disabled holds a JSON object whose keys stay in their order,
-- under a path that is an argument. Left out as well are the files of receipts and traces, the
-- executor, the life cycle of materialized secrets, the secret store, health, jobs, the adapters
-- and the command line.
pub mod Base
pub mod Python
pub mod Sorting
pub mod Resource
pub mod Registry
pub mod Discovery
pub mod Packs
pub mod Upgrade
pub mod Mcp
pub mod Redaction
pub mod Gateway
pub mod Secrets
pub mod Security
pub mod Approvals
pub mod Execution
pub mod Tracing
pub mod Examples

-- ===== src/Lib.antt =====
-- The web console of K8s Sentinel (web/src, TypeScript), as far as it decides anything: the forms
-- that write and reopen Kubernetes policies, the event lists that the streams feed, the discovery
-- of workloads, the shared filters and the exports. Go code, rendering and calls of the API are
-- not modelled.
--
-- Parts, and how they interact. An operator fills in a form; the form is validated, a manifest is
-- generated and applied, and a saved manifest opens in the form again or, where the reader of the form
-- refuses it, as YAML. Independently, two providers keep the newest events of a stream under caps, the
-- discovery provider polls profiles that the page groups by workload, lists and the network graph are
-- filtered, and what is listed is exported as CSV.
--
--   PlainYaml  a concrete instance of the interface of js-yaml, for the examples.
--   Cnp        web/src/utils/cnpForm.ts, the form of Cilium network policies. Cnp has the types,
--              Cnp/Labels the label rows (toMatchLabels, subjectMatchLabels, peerMatchLabels,
--              toLabelPairs), Cnp/Address isV4CIDR, isV6CIDR and normalizeCIDR, Cnp/Validate
--              validateCNPForm and sectionErrors, Cnp/Render toCiliumRule and cnpFormToYaml,
--              Cnp/Parse parseRules and tryParseCNPForm; under it, Head is what a form has of the
--              kind and the metadata, and settle_form the form that a generated document opens. Of
--              web/src/pages/CNPPage.tsx, Cnp/Editing has what the controls of the form change,
--              Cnp/Preview what SelectorPreview is asked for, and Cnp/Page the state of the page, the
--              effect of the route, the handlers and the list.
--   Selector   web/src/components/SelectorPreview.tsx: the requests and the line below a selector;
--              Cnp/Preview/Shown puts it together with the form of network policies.
--   Tracing    web/src/utils/yamlToForm.ts, the reading of tracing policies: Tracing/Representable
--              has representable, Tracing/Selectors one selector, Tracing/Reader the loop over the
--              kprobes and yamlToForm. Tracing/Page is web/src/pages/PolicyEditPage.tsx, where a policy
--              is edited as the form or as YAML.
--   Events     web/src/layout/SecurityEventsProvider.tsx, with the handlers of the stream,
--              reconnect and applyRetention as functions on the provider's state.
--              Events/Pause is the list of web/src/pages/SecurityEventsPage.tsx, which can be paused.
--   Admission  web/src/layout/AdmissionEventsProvider.tsx, in the same way.
--   Discovery  web/src/layout/DiscoveryProvider.tsx (Discovery/Polling) and buildWorkloadGroups of
--              web/src/pages/DiscoveryPage.tsx (Discovery/Groups).
--   Filters    web/src/components/ScopeFilter.tsx and web/src/components/FilterPopover.tsx.
--   Export     web/src/utils/csv.ts, exportEvents.ts and ruleType.ts; Export/Parse has a reader of
--              quoted CSV to state what was written.
--   Vap        web/src/pages/VAPPage.tsx, the generation of admission policies: Vap/Rules, Vap/Pods
--              and Vap/Sizes have the validations, Vap/Policy generatePolicyYaml, Vap/Binding
--              generateBindingYaml, Vap/Escape the escaping. Vap/Reopen has tryParseBuilderBinding
--              with metadataBeyondBuilder and specForCompare (Vap/Reopen/Metadata and
--              Vap/Reopen/Kept say of both what they let pass), Vap/Expressions the readers of the
--              expressions (those of labels, annotations and images in Vap/Expressions/Quoted), with
--              the folding of YAML in Vap/Expressions/Folded, Vap/Open parseSizeLimitSpec and
--              tryParseBuilderPolicy, Vap/Editing what the controls of the two builders change, and
--              Vap/Page the page: its state, the effect of the route, and the handlers.
--   Alerts     web/src/pages/AlertsPage.tsx: the form of an alert rule, its fields of names
--              (Alerts/Names), and the page.
--   Topology   web/src/pages/NetworkTopologyPage.tsx: the effect that filters nodes and edges,
--              with what the filters ask for (Topology/Asked), layoutNodes and the colours of
--              layoutEdges (Topology/Layout).
--   Health     web/src/utils/labelPairs.ts and web/src/utils/ingestion.ts; Health/Sources is
--              web/src/pages/TetragonStatusPage.tsx, with a count of web/src/pages/DashboardPage.tsx.
--   Toasts     web/src/layout/AppToaster.tsx: what the pages tell the operator.
--   Base       what they share: tests on numbers, lists, texts, objects, and the values of js-yaml.
--
-- How the code is modelled. A text is a list of code units. A JavaScript object is the list of its
-- properties in the order of insertion: keys that are array indices, which JavaScript moves to the
-- front, and __proto__ are not treated apart. js-yaml is not part of the repository: Yaml in
-- Base/Values is its interface, and a theorem that needs a document to be read back as it was
-- written, or values with one sorted dump to have the same shape, says so in a hypothesis
-- (IsLossless, KeepsShape). A reader of documents is a function to options, none where the source
-- returns null or throws. VAPPage.tsx catches what its readers throw. CNPPage.tsx and PolicyEditPage.tsx
-- do not: at which texts tryParseCNPForm and yamlToForm throw, of those that give no form, is a parameter
-- of these pages (throws), Cnp/Page has what an effect that throws does to the page, and Tracing/Page
-- what is left undone of a handler that throws. localeCompare is a parameter, and so are the labels that
-- Cilium derives for an endpoint beside those of its pod (derived, in Cnp/Preview/Covers).
-- Components of React are state records; what can happen to them is a data type of actions, and a
-- run is a list of actions, so that every interleaving is a list.
--
-- Bounds and fuel. No function of the model but decimal takes fuel, and it takes one more than the
-- number that it prints; every loop of the source runs over a list. Numbers are natural numbers:
-- counts, ports and caps are small in the source, where numbers are doubles. kbToBytes reads plain
-- decimal notation only, without sign or exponent; toLowerCase and toUpperCase are those of ASCII.
pub mod Base
pub mod Toasts
pub mod PlainYaml
pub mod Health
pub mod Cnp
pub mod Tracing
pub mod Events
pub mod Admission
pub mod Filters
pub mod Export
pub mod Discovery
pub mod Vap
pub mod Topology
pub mod Selector
pub mod Alerts

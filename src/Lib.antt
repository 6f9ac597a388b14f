-- ===== src/Lib.antt =====
-- Verification of the electronic invoicing service: documents are issued with a number of a
-- resolution, wait in a persistent queue, are signed and transmitted to the tax authority (DIAN) by
-- workers, and their final states are notified to webhooks.
--
-- Parts and files
-- Base: tests, lists, maps (`HashMap` with `Uuid` keys as association lists), text and characters with
--   the searches of the standard library, decimal digits, the events of an XML reader, and the integers
--   with the wrap-around of `i32`.
-- Domain: core-domain/src. Enums, EnumText, Models, Errors and Ports hold the data of models.rs,
--   jobs.rs, admin.rs and ports.rs; Lifecycle is lifecycle.rs, Numbering numbering.rs, Jobs jobs.rs,
--   Notify and Address webhooks.rs, Nit nit.rs. Checks has the chains of `?`. Lifecycle/Graph states the diagram of a document's life, Numbering/Rules
--   what a granted number is, Address/Blocks the special blocks of addresses.
-- Store: core-domain/src/testing.rs, the reference implementation of the persistence ports. State is
--   its `State` with `insert_job` and `job_mut`; Documents, Transitions, Queue, Deliveries and Admin are
--   the ports' operations under their own names. A mutex makes each operation one step; an operation
--   that fails keeps what it wrote before, so each returns its result and the store. History is
--   any sequence of operations; its children, InForce, Issuing, Outcome and
--   Queue/Claims hold the theorems.
-- Application: application/src. Resilience is resilience.rs: the circuit breakers and the backoff.
--   Processing is processing.rs: `process`, `transmit`, `poll` and their helpers. Webhooks is
--   webhooks.rs: subscriptions, and the dispatcher in Webhooks/Delivery. Issue is issue.rs; Admin
--   is admin.rs, with the checks of its requests in Requests. Xml is xml.rs: values read from a
--   document by path, by the textual search for tags (Tags), and the numbers of documents; Trees and
--   Numbers hold their theorems. Inbound is inbound.rs, with `register_verified` and
--   `register_unverified` in Register; Radian is radian.rs. World is what these run in: the
--   store, the breakers, and the outside (clock, random numbers, signer, DIAN, and the other tasks),
--   each a function of the number of calls made so far, so that theorems about a run hold for every
--   behaviour of the outside and every interleaving of whole store operations. Engine is the interface to
--   the crate ubl-engine.
-- Ubl: ubl-engine/src, and core-domain/src/money.rs in Money. Cufe is cufe.rs, Payload payload.rs (the
--   payrolls and support documents in Payload/Others), Lines and Parties model.rs, and Documents
--   lib.rs. A check that a payload passes is a chain of checks, as in the source.
-- Signer: crypto-signer/src. C14n is c14n.rs: the text functions in Escapes, the start tag of an element in
--   Namespaces, the loop in C14n itself; Trees, References, Reading and
--   Declared hold its theorems.
-- Soap: dian-soap-client/src. Soap itself is client.rs, Envelope soap.rs; the errors of error.rs stand as what
--   they become.
-- Tests: the theorems applied to small stores.
--
-- How the state corresponds
-- A `Uuid` and an instant are numbers, a duration is a number of milliseconds. Fresh ids, the time and
-- random numbers, which the code takes inside an operation, are arguments. Attempt counters (`i32`,
-- never negative) are natural numbers; document numbers are `i32` with wrap-around; the breaker's
-- failure counter is a `u32` with wrap-around. JSON values are an abstract type with the operations
-- that the code uses (Domain/Json). The panic of
-- `gen_range` on an empty range is `none` (Resilience). A message built by `format!` is kept as its template and arguments.
-- An XML text is what the reader of quick-xml gives for it, a list of events. Of rust_decimal and `f64`
-- the interfaces `Decimals` and `Floats` (Ubl/Money, Ubl/Documents) say what the code calls; decimal numbers are
-- values there, and the theorems that add name the laws they use (IsDecimals). SHA-384, the templates
-- and the archive are arguments. `UblError::Validation` is a validation error and
-- `UblError::Template` an internal one.
-- The iteration order of a `HashMap` is that of the list; it is not assumed to be any particular one.
--
-- Termination
-- The operations and use cases recurse on lists only: no fuel is used.
--
-- Not modelled
-- infra-postgres sends SQL to a server; the ports' reference implementation is modelled in its stead, and
-- its reads never fail. The signatures of crypto-signer stand behind interfaces, and so do the SOAP client in
-- Processing and ubl-engine in Processing and, but for Issue/Payloads, in Issue.
-- `generate_attached_document_xml`, whose result is only logged, packaging.rs and templates.rs of
-- ubl-engine/src, and time.rs and `constant_time_eq` of core-domain/src are left out. A sum or product of
-- rust_decimal that overflows panics in the code, which the interface does not show. The HTTP server, the
-- worker's loop and the metrics are not part of the model.
pub mod Base
pub mod Domain
pub mod Store
pub mod Ubl
pub mod Signer
pub mod Soap
pub mod Application
mod Tests

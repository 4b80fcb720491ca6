-- ===== src/Lib.antt =====
-- AuthentikOperator: a Kubernetes operator that reads OAuth2 providers from Authentik and keeps
-- each one's credentials in a Secret, as the custom resource OIDCClient asks for.
--
-- The program's parts. `Reconcile` (internal/controller/oidcclient_controller.go) makes sure of an API
-- token, reads the custom resource, fetches the provider through the HTTP client
-- (internal/authentik/client.go), builds the Secret's data by a profile (internal/profiles), compares
-- its hash (internal/hash) with that of the status, applies the Secret, patches a ConfigMap, restarts a
-- workload (internal/rollout) and records the hash. Where Authentik answers 401 or 403 it makes a new
-- token (internal/bootstrap). `main` (cmd/main.go) runs the bootstrap as a job or starts the operator.
-- The client trusts the certificates that internal/authentik/certs.go reads.
--
-- Files and code.
--   Prelude, Text        shared names and lemmas, and the functions of Go's strings and net/url that
--                        the code calls, on native strings
--   Errors               the errors that are returned, `errors.Is` and `IsNotFound`
--   Api                  api/v1alpha1/oidcclient_types.go (OIDCClient is OidcClient), and the fields of
--                        the Kubernetes objects that the code uses
--   DeepCopy             api/v1alpha1/zz_generated.deepcopy.go: a deep copy per type, on a memory of
--                        cells (DeepCopy/Memory, DeepCopy/Structs); DeepCopy/Readings says how a struct
--                        in memory is read as a value of Api
--   Responses            internal/authentik/types.go
--   Hash                 internal/hash/hash.go: ComputeSecretHash is `compute_secret_hash`
--   Profiles             internal/profiles/profiles.go (Apply, ApplyWithCert and the profiles) and, in
--                        Profiles/Url, internal/profiles/types.go (BuildOIDCData, AppRootURL);
--                        Profiles/Documented has the tables of docs/profiles, written out
--   Certs                internal/authentik/certs.go
--   World                what the operator acts on: a record `Env` of the libraries and services, and a
--                        world of the client's token and the trace of all calls, the newest first.
--                        World/Effects has the actions, World/Keeps and World/Guards the rules for
--                        predicates of the trace and of the world
--   Authentik            internal/authentik/client.go, a function per request; buildTLSConfig and the
--                        options are in Authentik/Tls, WaitForReady is in Authentik/Wait
--   Rollout              internal/rollout/rollout.go
--   Bootstrap            internal/bootstrap/bootstrap.go: execGetToken and Run
--   Reconciler           internal/controller/oidcclient_controller.go: Reconcile; its step 0 and
--                        refreshToken in Reconciler/Token, the conditions in Reconciler/Status, the steps
--                        from the provider to the status in Reconciler/Sync; Reconciler/Protocol has
--                        the stages in which a run writes
--   Entry                cmd/main.go: the job, the start of the operator and `main`; the flags in
--                        Entry/Options, the servers' options in Entry/Servers
--   Tests                concrete runs
--
-- State. An action takes a world and gives a result and a world; what was done before an error stays
-- done. The answer to a call is any function of the calls before it, so the cluster and Authentik may
-- change between two calls. SetupWithManager allows five runs at a time: a world is that of one worker,
-- beside others that act through these answers and through the token of the one client that all share.
-- The lock around this token makes each read and each set of it one step; `shared_token` says what the
-- client holds then, any function of the worker's calls and of the token that the worker has last set.
-- Between two requests a worker waits for the next one, which is a call of its trace.
-- A map is an association list in one of the orders in which Go may range over it. A slice of bytes is
-- a list of numbers below 256; the data of a Secret are texts. The custom resource that a run reads and
-- changes is a value; DeepCopy has the copies by which the cache hands it out, in memory.
--
-- Bounds. The loop of WaitForReady has `timeout / 5s + 2` rounds of fuel, more than the ticks that fit before
-- the deadline; the loop of parsePEM has one round more than there are bytes. A run that used
-- up its rounds would return the error `out_of_rounds`, which no code of the program makes.
--
-- Not modelled: log lines; the time limit of 30 seconds of an HTTP request, which is one of the errors
-- of the transport; the requests that net/http makes by itself to follow a redirect, which are part of
-- the one request that the code makes; the other workers' own calls, whose effects are parameters; the registration of
-- the controller and of the types (api/v1alpha1/groupversion_info.go); the chart and the manifests. The
-- flag package, JSON, PEM, X.509, base64, SHA-256, text/template, net/http, client-go, the manager of
-- controller-runtime and `meta.SetStatusCondition` are parameters.
pub mod Prelude
pub mod Errors
pub mod Text
pub mod Hash
pub mod Profiles
pub mod Certs
pub mod Api
pub mod DeepCopy
pub mod Responses
pub mod World
pub mod Authentik
pub mod Rollout
pub mod Bootstrap
pub mod Reconciler
pub mod Entry
mod Tests

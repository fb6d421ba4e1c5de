-- ===== src/Lib.antt =====
-- A verification library for the databasus operator.
--
-- The operator watches three kinds of objects in a Kubernetes cluster and keeps a record of each in
-- databasus, over its HTTP API. A Storage or a Notifier is resolved to one request and saved; a
-- DatabaseBackup waits for the Storage and the Notifiers that it refers to, creates or updates a
-- database, and saves its backup and health check configurations. An object carries a finalizer, so
-- that its record can be deleted before it goes. At the start the operator signs in with the
-- credentials of a Secret, and chooses a workspace.
--
-- Api                    api/v1alpha1/*_types.go: the objects, a record for each struct.
-- Wire                   internal/client/*.go: the bodies of requests and responses, as JSON
--                        values. Wire.Json is what encoding/json makes of a struct with field tags.
--                        Wire.RoundTrip reads requests as responses.
-- Effects                the outside. `Env` holds the calls of the Kubernetes client and of
--                        net/http, over a state that each call may change in any way; `Kube` holds
--                        functions of apimachinery and controller-runtime. Both are parameters, and
--                        Effects.Laws states what the theorems rely on in `Kube`. An action takes a
--                        `World`, the state and the log of the calls so far, to a result and a
--                        world. The log is for the statements; the program keeps none.
--                        Effects.Plain and Effects.Fallible put actions in sequence; Effects.Logs,
--                        Effects.Returns, Effects.Guards, Effects.Yields, Effects.Leads and
--                        Effects.Shares are what is proved of actions.
-- Client                 internal/client/*.go: `do` is `do_request`; each method has its own name.
--                        Client.Answers says when a method returns an object, Client.Asked which
--                        requests it sends.
-- Controller             internal/controller/*.go: `Reconcile` is `reconcile`, and `reconcile_…`
--                        after the object was read, with one function for each block that follows.
--                        What Go writes as a sequence of blocks with early returns is a chain of
--                        functions here: `sync` begins after the finalizer, and each function ends
--                        with the call of the next one. Controller.Written and
--                        Controller.DatabaseBackup.Wanted are no code: they say, field by field,
--                        what is to be written back and sent, and the theorems compare the code
--                        with them. The modules called Contents say what a built request holds;
--                        Controller.DatabaseBackup.Success is the run in which every call succeeds.
-- Startup                cmd/main.go: `authenticateFromSecret`, the settings from the environment,
--                        the options that the flags give (Startup.Options), and `main` from the
--                        parsed flags to the start of the manager (Startup.Main).
-- System                 the reconcilers together: a step is a turn of one of them, or any change
--                        of the state outside. System.Release is about finalizers, System.Confirm
--                        about the condition Ready, System.Authority about credentials,
--                        System.Deletion about objects that are being deleted, System.Once about
--                        the turns of one DatabaseBackup and the creation of its database,
--                        System.Origin about where the requests of the whole process go.
-- Prelude                shared names, numbers and text; Tests: a cluster in memory, and runs.
--
-- An object that Go mutates in place is a record with changed fields here; the pointers that
-- `Reconcile` takes are to objects of its own. `int` is `ℤ`: the program only copies integers and
-- compares them with 0, so no width matters. A pointer or a nil slice is an Option or an empty list;
-- where Go would dereference nil, the model has the outcome `panicked`. Loops are structural
-- recursion on lists, and no function needs fuel. Times are instants.
--
-- Not modelled: JSON syntax (a body is a text and the value that it stands for), texts that are not
-- UTF-8 (encoding/json replaces what is not, which a Secret can hold), HTTP and TLS, contexts and
-- timeouts (an expired deadline is a transport that gives no response), logging, the registration
-- of schemes, the parsing of flags, generated deep copies, and that concurrent turns interleave
-- within a turn other than by changes of the state between its calls.
pub mod Prelude
pub mod Api
pub mod Wire
pub mod Effects
pub mod Client
pub mod Controller
pub mod Startup
pub mod System
pub mod Tests

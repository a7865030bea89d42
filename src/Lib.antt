-- ===== src/Lib.antt =====
-- streaming-runtime-go: a Kubernetes operator for stream processing over dapr, and the components that
-- it deploys.
--
-- The program has two halves. The operator's controllers (controllers/) turn the custom resources of
-- api/v1alpha1 into dapr subscriptions, dapr components and deployments. The components
-- (components/channel, components/joiner, with components/support) run in these deployments: a channel
-- filters and shapes the events of one source, a joiner joins the events of two topics in time
-- windows, and each delivers to a pubsub topic and to an app through dapr. A deployment and its
-- component meet in the environment of the container: Controllers.Channel.Environment and
-- Controllers.Joiner.Environment put the two together. The manager (main.go) registers the controllers
-- and starts them. Two example programs (examples/) feed a stream and process one.
--
-- The files and what they model:
--   Prelude         strings as lists of bytes, Go's error results with panics as a third outcome, maps as
--                   association lists, and the functions of `strings` that the program calls
--   Extern          encoding/json, cel-go, structpb, time.ParseDuration and the set-up calls of dapr, as a
--                   parameter; IsDocumented is what their documentation says and some theorems use
--   Support         components/support/support.go, function by function
--   Deliveries      the requests to dapr of both output loops
--   Api             api/v1alpha1/*_types.go, and of the Kubernetes and dapr types the fields in use
--   Joiner          components/joiner/main.go: eventStore and reset; Joiner.Rows has shouldCollect,
--                   collectData and aggregateEvents, Joiner.Loops startInputLoop and startOutputLoop,
--                   Joiner.Setup getSubscription and main
--   Joiner.Pipeline  makeEventHandler and the two loops together, under every interleaving
--   Joiner.Window   the abstract view of the input loop: a list of waiting events in order of arrival
--   Joiner.System   a joiner from the environment of its process to its deliveries;
--                   Controllers.Joiner.System starts from its custom resource
--   Channel         components/channel/main.go: shouldCollect, shouldTrigger and collectData;
--                   Channel.Loops has invocationHandler, startProcessingLoop and startOutputLoop,
--                   Channel.Setup main
--   Channel.Pipeline  what the goroutines of a channel do together, under every interleaving
--   Channel.System  a channel from the environment of its process to its deliveries;
--                   Controllers.Channel.System starts from its custom resource
--   Service         the end of the mains, which run dapr's service
--   Controllers     controllers/*.go: Helper is helper.go; Client the API server, as a parameter, with a
--                   log of calls; Reconcile the Reconcile method that four controllers share; Channel,
--                   Joiner, Processor, Stream, ClusterStream and Table the controllers; Kinds and
--                   Owned what several controllers have in common; Cache what is documented of the
--                   cache that the manager's client reads from; Runs all controllers together, one
--                   reconcile after the other
--   DeepCopy        api/v1alpha1/zz_generated.deepcopy.go, over the memory of Memory: DeepCopy.Methods has
--                   DeepCopyInto of specifications and objects, DeepCopy.Parts the methods of the parts
--                   of an object, DeepCopy.Lists the other methods;
--                   DeepCopy.Shapes says what a struct reaches and what it is as a value
--   Manager         main.go, api/v1alpha1/groupversion_info.go and the SetupWithManager methods
--   K8s             components/k8s/client.go, which has no caller
--   Examples        examples/message-gen/main.go and examples/message-proc/main.go, the second also in
--                   the deployment of a processor
--   Tests           the theorems at concrete inputs, with stand-ins for the libraries (Extern.Sample)
--
-- A function of the source has its name in lower case with underscores (GetTargetParts is
-- get_target_parts). A long function is cut at its branches: what follows a call that may fail is a
-- function of its own, by clauses on the outcome.
--
-- Choices. A goroutine's loop is a function of one round, and a step relation where goroutines share
-- channels. The loops have no fuel, but for the generator's: the joiner's runs over a list of signals,
-- one for each case that `select` takes, and the step relations take any number of steps. The fuel of
-- the generator counts rounds; a count c needs c + 2. The capacity of the joiner's output channel and
-- of the channel's two is 1024, as in main. The int32 fields of a resource are only compared with zero
-- and printed, so they are integers here; the generator's counter is a 64-bit int that wraps around, and
-- so is the channel's, as the pattern of its bits. A container's environment is its own variables, then
-- any others, from EnvFrom, the image or the cluster, which are an argument of the theorems. The
-- manager's client reads from a cache that may be behind the API server: the theorems on runs of
-- reconciles that need a law of the answers take one about what the cache shows. A
-- Go map's `range` order is the order of the list, and the theorems hold for every order. The
-- reconciles of a run follow each other; what runs beside them, reconciles of other controllers
-- included, is in the world behind the client, which any request may change. `log.Fatalf`
-- is an error outcome, since it ends the program. An error that is wrapped keeps its text and is no
-- longer recognised as not found.
--
-- Not modelled: the joiner's marshalJSON (it has no caller), the parsing of flags, what dapr's service
-- does while it runs, time.Sleep, logging, the locks of eventStore, which one goroutine alone uses, and
-- the controllers' test harness.
pub mod Prelude
pub mod Extern
pub mod Service
pub mod Support
pub mod Deliveries
pub mod Memory
pub mod Api
pub mod Controllers
pub mod DeepCopy
pub mod Manager
pub mod K8s
pub mod Examples
pub mod Joiner
pub mod Channel
mod Tests

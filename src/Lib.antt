-- ===== src/Lib.antt =====
-- Proxer is a gateway that routes public traffic to hosts behind it, with a web frontend (web/src)
-- and a desktop agent with a frontend of its own (agentweb/src). This library models the two
-- frontends: what their components keep in state, what each handler sends and stores, what is shown,
-- and what happens when handlers overlap. web/src holds each file twice, as TypeScript and compiled;
-- App.js and App.tsx, and workspace/WorkspaceApp.js and workspace/WorkspaceApp.tsx, say the same.
--
-- The files, and the code that they model:
-- Base, Json, Number, Text: what JavaScript gives to both frontends: `??` and `||`, JSON values,
--   numbers, `parseInt` and `Number` (Number/Parse), `trim` and `toLowerCase`, and
--   `encodeURIComponent` with its inverse (Text/Uri).
-- Effect: an asynchronous handler as a program that changes its component's state, awaits replies,
--   returns or throws. Effect/Run runs one program against a server, Effect/Pool runs many whose
--   replies come in any order, and Effect/Safe says what all setters of a program keep.
--   Effect/Settle is about flags such as `loading`, which are raised at the start of an action and
--   lowered at its end; Effect/Ends is about one program whose replies come in any order.
--   `together` is `Promise.all` of whole actions: both start at once, the first error is thrown at
--   once, and the other action runs on.
-- Http: the reply of `fetch`. Web/Http and Agent/Http: `requestJSON` of web/src/App.js and
--   `apiRequest` of agentweb/src/App.tsx.
-- Web/Types, Web/Format, Web/View: the payloads, the formats and the parts of a page.
-- Web/Session: `App`, `LoginView` and `SignupView` of web/src/App.js. Its state holds the user
--   `me`; the workspace is shown only while there is one, and its requests go through `api`.
--   Web/Session/View has the two forms. Web/Session/Inside runs a page inside the app, with each of
--   its requests through `api`.
-- Web/Landing: `LandingPage` of web/src/App.js, with its sections in Web/Landing/View.
-- Web/Workspace: `WorkspaceApp` of web/src/workspace/WorkspaceApp.js, which picks the page.
-- Web/Page: the state and the handlers that the pages have in common; Web/Pages has a module for
--   each page of web/src/workspace/WorkspaceApp.js, with `load`, the other handlers and the view.
--   Web/Page/Sync compares a page with the server that it is loaded from, and
--   Web/Pages/Users/Refines takes a directory of users behind the gateway as an interface.
-- Agent/Types, Agent/Form, Agent/State, Agent/Actions, Agent/View: agentweb/src/App.tsx. A handler
--   takes the state of the render that it closes over beside the state that it changes.
--   Agent/View/Form has the inputs of the forms. Agent/Actions/Store takes what the local agent
--   stores behind its HTTP interface as an interface of operations and laws.
-- Tests: concrete inputs.
--
-- Bounds: every function recurs on its data, and programs are finite trees, so that a run ends
-- without a bound. The decimal digits of a number n are printed in n + 1 rounds at most (`show` of
-- Text), which is enough since each round divides by ten.
--
-- Not modelled, or a parameter: `fetch`, the JSON of the browser (the record `Codec` of
-- Web/Pages/Config), dates, the printing of numbers in the agent's form, the matching of routes
-- by react-router; the rounding of arithmetic to doubles, and that a number beyond their range is
--   Infinity; letters other than ASCII in
-- `toLowerCase`; inputs of `Number` that a number input does not give; the browser's own checks
-- of `required` inputs; the state of the login form after it is unmounted; a page's own copy of
-- a reply that comes after another page was opened. A reply is taken to have the type that the
-- code names for it. The gateway, the host agent and their stores are written in Go and are not
-- modelled: their replies are arbitrary, or given by the two interfaces above.
pub mod Base
pub mod Number
pub mod Json
pub mod Text
pub mod Effect
pub mod Http
pub mod Web
pub mod Agent
pub mod Tests

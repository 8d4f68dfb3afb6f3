-- ===== src/Lib.antt =====
-- A model of the TypeScript code of csv-product-uploader: a server that imports product lists from CSV
-- files, the dashboard of its client, and the client of the Go pipeline, a second implementation.
--
-- The program: a client signs up and gets a token (auth), uploads a file, and the server stores a batch
-- and queues a job (upload). The job (jobs) takes a snapshot of the exchange rates for the batch
-- (exchange-rates), reads the file, validates its rows, stores the products in chunks of 500 and reports
-- its progress, which the streams of the upload controller pass on to the clients. The products are then
-- queried page by page, with their prices in other currencies (products). The dashboard of the client
-- follows one batch at a time and shows its products when it is completed.
--
-- The files, with paths from the root of the repository:
--   Prelude, Prelude/*: names of the libraries, lists and integers over the native numbers, Boolean tests.
--   Js, Js/*: what the source uses of JavaScript: numbers (IEEE 754 doubles, exact, as multiples of
--     2 ^ -1074), texts as lists of UTF-16 code units, parseFloat, parseInt and dates (of a server that
--     runs in UTC).
--   Server/Entities: the records of the tables. Server/World: the state that the server's code acts on
--     and the monad of that code: a call that leaves the process takes the next reply of a script, which
--     says whether it throws and how long it takes; an unhandled error event ends in `crashed`.
--     World/Frames: what a part of the state keeps while calls change other parts.
--   Server/Csv/*: node-pipeline/server/src/jobs/csv.processor.ts (Rows: validateRows and parseDate;
--     Processor: handleProcessCsv and the rest; Import, Success: jobs that nothing disturbs; Failure,
--     Totality, Chunks, Partial, Emissions: jobs whose calls throw). Server/Percentage: its percentage.
--   Server/Rates, Server/Rates/*: node-pipeline/server/src/exchange-rates/exchange-rates.service.ts.
--   Server/Upload/*: node-pipeline/server/src/upload (Service: createBatch and the queries; Hub: the
--     emitters of the service and streamProgress of the controller; Controller: uploadFile, getBatches).
--   Server/Batches: findOne and update of the table of batches.
--   Server/Products, Server/Products/*: node-pipeline/server/src/products.
--   Server/Auth, Server/Auth/Tokens: node-pipeline/server/src/auth.
--   Client/Dashboard, Client/Dashboard/*: node-pipeline/client/src/pages/Dashboard.tsx with
--     hooks/useFileUpload.ts and hooks/useProgressTracking.ts.
--   Client/Session, Client/Session/Restore: node-pipeline/client/src/hooks/useAuth.ts with
--     services/auth.ts and services/network/response.ts.
--   Client/Batches: hooks/useBatchesData.ts of the client.
--   Client/Products, Client/Products/*: hooks/useProductsData.ts of the client and fetchProducts of its
--     services/api.ts; Served puts them together with the server's products.
--   Client/Table: components/ProductTable.tsx of the client. Client/Network: services/network/index.ts.
--   Client/SignIn: App.tsx, components/layout/AuthLayout.tsx. Client/Select: components/ui/Select.tsx.
--   Client/Panels, Client/Panels/*: components/ProgressBar.tsx, components/BatchList.tsx,
--     components/upload/UploadView.tsx and the rows, amounts and footers of components/ProductTable.tsx.
--   GoClient/*: go-pipeline/client/src. Jobs: types/index.ts; Progress: hooks/useImportProgress.ts
--     (Alive: its invariant); Uploads: hooks/useFileUpload.ts, components/FileDropzone.tsx;
--     Imports: hooks/useImportsData.ts; Products: hooks/useProductsData.ts (Latest: its answers);
--     Api: services/api.ts;
--     Dashboard: pages/Dashboard.tsx with these hooks (Reached, Settling, Stale, Prompt, Listing); Screens:
--     components/ImportProgress.tsx, components/upload/ProcessingView.tsx and
--     components/ImportList.tsx; Table: components/ProductTable.tsx and
--     components/FilterPanel.tsx; Reports: components/ReportView.tsx,
--     components/products/ProductsView.tsx and components/PipelineMetrics.tsx.
--   Watching/*: server and client together. Delivery, Arrival: a user who watches an import; Failing: an
--     import that fails; Journey: an upload, its import and its arrival; Access: the user's session as the
--     server's guard sees it.
--   Server/Csv/Readings: a description of the prices and dates that are accepted.
--   Witnesses/*: the theorems at concrete inputs.
--
-- Bounds and fuel: the loop over the chunks has one unit of fuel more than there are rows, and each round
-- takes at least one row, so that it never runs out. The percentages are bounded for totals below 2 ^ 53.
--
-- Parameters: the database of the products (which rows meet a condition, and their order in one query),
-- what a number reads as once it is stored in the column of the rates, the tokens
-- (sign and verify) and what the client decodes of them; the choice of ids by the database; the answers
-- of the currency API and the replies of all calls; the contents of files as csv-parser gives them.
--
-- The dashboards are step functions: an event is a handler that runs, a message or an answer that comes, or
-- a timer that is due, with the effects that React runs after it; the user's events are allowed in every
-- state, also where their button is not shown. The times of the timers are left out.
--
-- Not modelled: logging, start-up and dependency injection, the markup of the clients and their locale's
-- formats, the encoding of parameters in addresses, and the Go server, which is not TypeScript.
-- An integer that parseInt reads beyond 2 ^ 53 is kept exactly. A query for a page or a limit that is a
-- fraction is not modelled; nor is a save that stores a part of a chunk and then throws, nor
-- a table of the currency API with values that are no numbers, which the code would keep.
pub mod Prelude
pub mod Js
pub mod Server
pub mod Client
pub mod GoClient
pub mod Watching
pub mod Witnesses

-- ===== src/Lib.antt =====
-- Verification of terminator, a proxy that records, replays and stubs network services, and of the
-- JavaScript that its pages are rendered with.
--
-- The program. A link binds a local port and forwards to a remote service in one of four modes. In
-- tunnel mode bytes are passed on as they are. In record mode
-- (src/com/baidu/terminator/server/common/record, server/http/HttpRecordServerHandler.java) each
-- request is forwarded, and the response is stored under the signature of the request. In replay
-- mode (server/common/replay) the stored response of a signature is the answer. In stub mode
-- (server/common/stub) the operator's list of stubs is sorted and the first stub whose conditions
-- hold of the request's elements gives the answer; a request without a stub is forwarded or
-- answered by a default. The pages of the manager load templates and data and render them with
-- WebContent/resources/js/mustache.js, and send data written by WebContent/resources/js/json2.js.
-- The manager (manager/service) keeps the links in a table and starts, stops and switches their
-- servers; a link keeps its records and stubs in a cache or in files (storage).
--
-- Files.
--   Base: shared names, results with exceptions as values, texts as lists of character codes.
--   Stub: Stub/Data (manager/bo/StubData.java, StubCondition.java,
--     plugin/extractor/RequestElement.java), Stub/Matcher (plugin/matcher), Stub/Comparator
--     (server/common/util/StubMatcherComparator.java), Stub/Handler
--     (server/common/stub/BaseStubServerHandler.java, server/http/HttpStubServerHandler.java). A
--     field that may hold null is an Option, and calling a method on null is the result `err
--     null_pointer`. Collections.sort is a parameter of which only `it permutes` is assumed.
--   Record: Record/Store (storage/RequestResponseBundle.java, storage/cache/CacheStorage.java) and
--     Record/Handler (server/http/HttpRecordServerHandler.java, server/http/HttpRelayHandler.java
--     behind the aggregator of its pipeline, server/common/BaseRelayHandler.java,
--     server/common/BaseServerHandler.java, server/common/replay/BaseReplayServerHandler.java).
--     The state of a connection is a record, its inputs are events from the client and from the
--     remote service, and `run` takes any interleaving of them; Record/Evictions is what the cache
--     then holds. The cache library and the HTTP codec are parameters; the laws of the cache allow
--     it to drop entries. Record/Stubs is the list of stubs of CacheStorage with its counter, and
--     signerChanged.
--   Mustache: Mustache/Escape, Scanner, Token, Parse, Squash, Nest, Value, Render and Writer, each
--     about the function of that name in mustache.js. Regular expressions are the five forms the
--     file builds. The mutable collector of nestTokens is a zipper. Values are JSON data; arrays
--     and strings have their length and indices. Mustache/Names says what a name means in a
--     context.
--   Json: Json/Quote and Json/Stringify (WebContent/resources/js/json2.js) over the values of
--     Json/Value. The global `gap` is an argument. The references, a reader of string literals and
--     the grammar of JSON, are in Json/Quote/Reader and Json/Stringify/Grammar. Numbers are a
--     parameter, with their texts and the test whether they are finite.
--   Registry: Registry/Table (objects used as maps) and Registry/Templates
--     (WebContent/resources/js/jquery-mustache.js). The state is the map of templates and the
--     partial cache of the engine's writer; an exception comes with the state that the call
--     leaves.
--   Jquery: the parts of WebContent/resources/js/jquery-1.7.2.js that keep state or transform
--     data. Functions that users hand over are parameters: a call acts on the object that calls it
--     and on a world `W`, and may throw. Jquery/Callbacks is `jQuery.Callbacks` with the variables
--     of its closure as a record; `next` is firingIndex + 1. Jquery/Deferred is `jQuery.Deferred`
--     over three such lists; done_list, fail_list and the functions that Deferred puts there are
--     kept apart from the user's. Jquery/Queue is `queue`, `dequeue` and the marks of one element
--     and one type, with arrays by number because `dequeue` keeps hold of one. Jquery/Arrays is
--     merge, makeArray, inArray, grep, map and each over arrays, and get, eq, slice and end of
--     sets. Jquery/Classes is addClass, removeClass, toggleClass and hasClass with texts.
--     Jquery/Ajax is the choice of a transport, the choice of a response and its conversions.
--     Jquery/Param is `jQuery.param` with `buildParams`; the encoding of texts is a parameter with
--     the function that reads it back.
--   Links: Links/Table is the table `link` (src/database/1.1/terminator.sql) with the statements
--     of manager/mapper/LinkMapper.xml, Links/Control is
--     manager/service/LinkControlServiceImpl.java with server/common/ServerImpl.java,
--     server/ServerContext.java and storage/StorageFactory.java, Links/Requests is
--     manager/service/LinkServiceImpl.java with the requests of manager/action and the clients
--     that connect (server/common/ServerPipelineFactory.java), and Links/Services is
--     BaseLinkService, StubServiceImpl and RecordServiceImpl. Link objects live in a heap, because
--     a server and the map of links share one. A storage is an interface whose calls may throw,
--     with the law that a stub that was put is listed behind the others. A call that throws comes
--     with the state it leaves. The class loader, the plugin tables, the storages' constructors
--     and the binding of ports are the fields of a record `Platform`; that the id of a row is a
--     primary key is a hypothesis where it is used.
--   Files: Files/Store is the record half of storage/file/FileStorage.java with
--     storage/file/mapper/DataIndexMapper.xml. A data file is a list of bytes, a write says how
--     many of its bytes reach the file, and the object streams and the comparison of signatures
--     are parameters. Files/Stored describes what is read without offsets and rows.
--
-- Bounds. Numbers are natural numbers. The counter of the stubs is a Java int, which turns
-- negative at 2^31; no other modelled code relies on wrap-around. The loop of `parse` runs on
-- fuel, one more than the length of the template, and is proved never to run out. The fuel of
-- `partial_text` bounds how deep partials call one another; nothing bounds it in the source. The
-- loop and the calls of `fire` run on fuel too, since functions may add functions and fire for
-- ever; with functions that leave the list alone, a turn of fuel for each function and a few more
-- are proved enough. `inspect` of a data type runs on fuel, which is proved to be enough at two
-- for transports.
--
-- Not modelled: channel flow control and closing, the stubs of a file storage, whose statements
-- name columns that the schema lacks, calls of the link services that overlap in time, the search
-- for links by name, the class path scan for plugins, ciphers, logging, the routing and validation
-- of web actions, JSP pages, values that are functions in templates, replacer functions, `toJSON`,
-- and the fallback JSON.parse, which is a call of eval, the copies of poshytip, tmpl and netty,
-- and of jQuery all but the parts named: selectors, events, effects and the document, extend, pipe
-- and when of deferreds, delay, and functions in place of class names.

pub mod Base
pub mod Files
pub mod Jquery
pub mod Json
pub mod Links
pub mod Mustache
pub mod Record
pub mod Registry
pub mod Stub

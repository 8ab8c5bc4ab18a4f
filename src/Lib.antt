-- ===== src/Lib.antt =====
-- Verification of MyPowerMirror: a small HTTP server in C and the C++ HTTP classes beside it.
--
-- The C program: the loop of server.c accepts connections, gives what it receives to `parseRequest`
-- (http.c, include/http.h) and answers with `response`, which asks `getFileType` (util.c) for a
-- type; client.c has a file of lines, each a path with an author and an age, and uploads the chosen
-- one with libcurl.
-- The C++ classes of src/: HTTPMessage is a ByteBuffer with a map of headers, HTTPRequest
-- and HTTPResponse are HTTPMessages that can be created as text and parsed from text.
-- HTTPServer keeps its clients in a map, reads from those that `select` gives, parses a request and
-- gives its client a response. ResourceHost makes a Resource of a URI.
--
-- Base              Boolean tests on native numbers, lists under the library's names, Outcome
-- CString           the C library's string functions: strcmp, strncpy, strtok, atoi
-- Mirror.Util       util.c: countChar, indexOfStrFirst, getFileType, getFileSize
-- Mirror.Http       http.c: parseRequest as `parse_request`, parseHeader as `parse_header`
-- Mirror.Response   server.c: response
-- Mirror.Server     server.c, main: `round` is one pass of its loop, `serve` the loop over the clients
-- Mirror.Main       server.c, main: its set-up and its loop over a list of rounds
-- Mirror.Sender     client.c: getSendInfo, postUrl as `post_url`, main as `send_main`
-- Descriptors       FD_SET, FD_CLR and FD_ISSET, for both servers
-- ByteBuffer        src/ByteBuffer.h and src/ByteBuffer.cpp, one function per method;
--                   ByteBuffer.Printing has the texts that a buffer is printed as
-- HttpMessage       src/HTTPMessage.cpp: getLine as `get_line`, getStrElement, parseHeaders,
--                   parseBody, putLine, putHeaders; HttpMessage.HeaderMap is the std::map
-- HttpRequest       src/HTTPRequest.cpp: create, parse, methodStrToInt, methodIntToStr
-- HttpResponse      src/HTTPResponse.cpp: create, parse, setStatus, determineStatusCode
-- Client            src/Client.cpp and src/SendQueueItem.h: the queue of a client
-- ResourceHost      src/ResourceHost.cpp, src/Resource.h: getResource as `get_resource`, readFile,
--                   readDirectory, generateDirList; ResourceHost.MimeTypes is src/MimeTypes.inc
-- HttpServer        src/HTTPServer.cpp: handleRequest, its handlers and sendResponse;
--                   HttpServer.Receiving has readClient, HttpServer.Loop the rounds of process with
--                   start, acceptConnection and disconnectClient, HttpServer.Resources handleGet,
--                   and HttpServer.Main is src/main.cpp
--
-- A stateful method takes its object as a record and returns it changed. A byte is a number below
-- 256. Where the C++ standard or the C library leaves the behaviour undefined (a NULL read, a write
-- behind an array, a value never set) the outcome is `fail undefined_behavior`; an exception that
-- nothing catches is `fail out_of_range`. An `unsigned int` wraps at 2^32, written `u32`.
-- `std::vector` and `new` are taken to succeed.
--
-- What the system gives is the environment's choice, an argument of the step that uses it: the
-- descriptors that `select` finds ready, the results of `accept` and of each `recv`, whether a file
-- opens and what it holds. A call of `recv` for which there is no result yet waits.
--
-- Fuel: `parse_request` runs its line loop on one round more than the bytes received, and
-- `parse_headers` both of its loops on one more than the bytes in the buffer; every round but the
-- last takes a byte. Base.Ending has the predicate Ends of an outcome that is a result or a failure
-- of the code, not one of the model for want of fuel. `serve` has as many rounds as there are
-- clients at its start, and fails for want of fuel when clients are left after them, which there
-- never are, as their count does not grow in it; `get_infos` has one more than the bytes of the
-- line.
--
-- Not modelled: libcurl, of which src/include/curl and src/lib are a copy; what the servers print to
-- their terminal, apart from the functions of ByteBuffer; and the older copies HTTPServer_bak.cpp,
-- which uses names that no header of the repository defines, and HTTPMessage.H.
pub mod Base
pub mod CString
pub mod Client
pub mod Descriptors
pub mod Mirror
pub mod ByteBuffer
pub mod HttpMessage
pub mod HttpRequest
pub mod HttpResponse
pub mod ResourceHost
pub mod HttpServer

-- ===== src/Lib.antt =====
-- mergebot: the code of a bot that resolves merge conflicts of C++ sources.
--
-- A conflict file is scanned for its blocks (src/core/sa_utility.cpp); a chain of handlers resolves
-- blocks with the help of string utilities (include/mergebot/utils/stringop.h); resolved blocks and
-- files are dropped from what the next handler sees. The handler that works on syntax trees collects
-- the sources to analyse, builds a graph of semantic nodes for each of the three versions, matches the
-- base with either side, merges the nodes and prints the merged translation units (src/core/semantic).
-- The language server client names files by URIs (src/lsp/uri.cpp).
--
--   Prelude     names, Boolean tests, lists over the native numbers, predicates on lists
--   Bytes       std::string as a list of bytes: find, prefixes, lines
--   Conflict    ConflictMark, ConflictBlock, ConflictFile; construct_conflict_file is
--               constructConflictFile, extract_code_from_conflict_range is
--               extractCodeFromConflictRange, tidy_up_conflict_files is tidyUpConflictFiles
--   StringOps   Hex: hexDigitValue and its kin; Split: string_split and string_join; Deflate:
--               removeCommentsAndSpaces; Macro: doMacroExpansion
--   Paths       pathToName and nameToPath of src/core/sa_utility.cpp
--   Results     include/mergebot/server/vo/ResolutionResultVO.h, marshalResolutionResult
--   Handlers    the loop of src/core/handler/StyleBasedHandler.cpp and TextBasedHandler.cpp over
--               files and blocks, a check being its parameter, and the style based check
--   Chain       SAHandler::handle and HandlerChain::handle; a handler comes with the law Conserves
--   Graph       DependencyGraph of include/mergebot/utils/stringop.h, and mergeVectors
--   Text        what TextBasedHandler.cpp reads out of a text; Checks: its four checks and their order
--   Semantic    how GraphMerger of src/core/semantic merges texts and lists
--   Similarity  levenshtein_distance of src/utils/similarity.cpp
--   Nodes       SemanticNode and its subclasses (include/mergebot/core/model): Defs has the data,
--               Nodes the hashes, Names the qualified names
--   Matching    TwoWayMatching and topDownMatch; Matchers and BottomUp: the matchers and
--               bottomUpMatch of src/core/semantic/GraphMatcher.cpp
--   Merger      GraphMerger on nodes: Fields and Children are mergeSemanticNode; Frame, Order and
--               Follows, News are about the heap and the children, Steady to Terminates about the fuel
--   Sources     SourceCollectorV2 of src/core/semantic/SourceCollectorV2.cpp: the sources to analyse,
--               and their direct includes
--   ThreeWay    threeWayMatch and threeWayMerge of GraphMerger, which put Matching, Merger and
--               Printer together; OneSide follows a node through a merge and a print
--   Printer     prettyPrintNode and PrettyPrintTU of src/core/semantic/pretty_printer.cpp, Indent is
--               indentCodeLines; Parts spells a node's text out without the code's functions
--   Uri         the class URI and URIForFile, and the path helpers they use
--
--   ThreadPool  the ring of tasks of src/utils/ThreadPool.cpp: Fifo sees it as a queue, Run is the
--               relation of the critical sections that callers and workers enter, Order and Drain
--               are about its runs, Errors about pthread calls that fail
--
-- A byte is a number; only theorems that need it assume that it is below 256. Reads outside a
-- buffer, exceptions and the use of an empty optional are results of their own. The scan of a
-- buffer runs on fuel, one more than the buffer's length: each round goes on behind a newline; a lack
-- of fuel is a result of its own. The replacement of a macro runs on one more than the length of the
-- text, and is shown to need no more. Assertions are those of a release build, which checks none; the
-- path style is POSIX.
--
-- The loops of DependencyGraph run on fuel: its sort on one more than the nodes, since each is pushed
-- once at most, its search for cycles on the number of edges and three for every node.
--
-- Nodes of semantic graphs stand on a heap, and a pointer is a number. A table over hashes of nodes
-- keeps the hash that a node had when it was inserted, which a later change of the node does not
-- alter. The merge of a node and its printing run on fuel, one for each level of the graph: both are
-- shown to end where it exceeds the rank of the node. A cast that fails is a result of its own. What
-- the preprocessor reports is a sequence of events, and the set of nodes that threeWayMatch goes
-- through comes in an order that is a parameter. Similarities over doubles and boost's maximum
-- weighted matching are parameters.
--
-- Not modelled: the graph builder, file, process and network access, logging, threads, git,
-- clang-format, and the tree-sitter parser.
pub mod Prelude
pub mod Bytes
pub mod Conflict
pub mod StringOps
pub mod Uri
pub mod Paths
pub mod Results
pub mod Handlers
pub mod Chain
pub mod ThreadPool
pub mod Graph
pub mod Similarity
pub mod Semantic
pub mod Nodes
pub mod Matching
pub mod Merger
pub mod Printer
pub mod ThreeWay
pub mod Sources
pub mod Text

-- ===== src/Lib.antt =====
-- Models and proofs for OMF Retrieval, a service that answers questions over the design wiki of one
-- repository with ranked evidence.
--
-- A request carries a client token. `ClientAccessService` (application/admin) authenticates the
-- token, checks the client's grant for the source, and only then calls `SearchService`
-- (application/search), which finds the active index, embeds the query, fetches keyword and vector
-- candidates, fuses the two lanes by reciprocal rank and groups the result by parent section. Which
-- index is active is decided by `ActivationService`: each source has at most one active and one
-- previous generation, an activation or a rollback moves them in one transaction, and the audit is
-- written after the commit.
--
-- Paths below start at src/omf_retrieval.
--   Prelude            tests, lists, equality, dictionaries, sorting, `str`, `float`, exceptions
--   Search/Ports       application/search/ports.py: the value objects and their validation
--   Search/Rrf         application/search/rrf.py: `reciprocal_rank_fusion`; Spec and Laws hold the
--                      specification without dictionaries, Order and Falling the order of the result,
--                      Cover and Places what is in it and where it stands in the lanes,
--                      Overflow the division that raises
--   Search/Evidence    application/search/evidence.py: `group_evidence`
--   Search/Policy      application/search/policy.py: `SearchPolicySnapshot` and its validation
--   Search/Service     application/search/service.py: `SearchService.search` and `is_ready`
--   Admin/Base64       the URL-safe base64 and hexadecimal forms of application/admin/tokens.py
--   Admin/Tokens       application/admin/tokens.py: `issue_token`, `parse_token`
--   Admin/Store        infrastructure/database/repository_auth.py: the client tables
--   Admin/Access       application/admin/service.py: `create_client`, `authenticate`,
--                      `execute_authorized`
--   Indexing/Ports     application/indexing/ports.py: values of the chunker, and in Snapshot those of
--                      source snapshots, with their validation; `split_physical_lines`
--   Indexing/Structure application/indexing/ports.py: parsed Markdown with its validation
--   Indexing/Chunker   infrastructure/source/chunker.py. `ParentChildChunker`: Tokens and Groups
--                      are the tokenizer's answers, Excerpt the slices, Window the search for the
--                      end of a window, Normal and Atomic the children of the kinds of blocks,
--                      Units the parts of tables and lists, Split the section; Fits, Ends, Pack and
--                      Drafts hold the sizes, Source the places in the body, Split/Short the
--                      sections that are one chunk. `ParentContextBuilder`, in Context: Parts the
--                      excerpts of blocks, Select the search for blocks around a match, Oversized
--                      the part of one block, Build the whole; Grow, Halting and Chosen hold that
--                      the search ends within the limit, Meet, Seeds, Cover, Place and Inside that
--                      the match is inside, Widest the part of one block, Reparsed the checks of
--                      the builder, Bounds the result; Fills, Root and Whole hold that a text
--                      without headings is accepted when it is parsed again
--   Indexing/Markdown  infrastructure/source/markdown.py, `MarkdownItParser.parse`: Headings the
--                      heading tokens, Blocks the trees of blocks, Sections the sections with their
--                      blocks and gaps; Coverage and Nesting hold what `parse` gives,
--                      Total the documents for which it returns
--   Indexing/Tables    infrastructure/database/models.py: the tables of the index generations
--   Indexing/Activation  infrastructure/database/repository_activation.py: `activate`, and in
--                      Rollback `prepare_rollback` and `rollback`; Effect, Invariant and
--                      Rollback/History hold what they do and keep, Prune the garbage collection;
--                      Slots is what they promise of the active and the previous run of a source,
--                      Replaced, Moves, Rollback/Unique and Rollback/Refinement that they keep it
--   Indexing/Service   application/indexing/activation.py: `ActivationService.activate` and
--                      `rollback`, the commit and the audit after it
--   Examples           the models on concrete inputs
--
-- An exception is the value `raise e` of `Result`; a chain of calls is a do block, and a handler
-- is a function on `Result`. State is passed explicitly: an operation on the client tables takes a
-- `ClientDb` and returns the next one, and one that raises returns none, as its transaction is
-- rolled back. The order of calls and tests is the code's.
--
-- A dictionary is an association list in insertion order; `sorted` is a stable insertion sort; a
-- UUID is its integer; a time is a number; a text is its list of code points. Floats are an
-- interface with the laws of IEEE 754 that are used, so nothing depends on rounding; a division by
-- an int that is too large for a float raises. The event time of an activation tells the zone that
-- is UTC from others. Tests of exact types have no counterpart: the model's types exclude what they refuse. A limit is a
-- natural number, and a negative limit is refused as 0 is. `create_client` tries three times,
-- which is the code's bound. The deletion of contents in batches has fuel, one for each candidate,
-- which is enough since no batch is empty. The loops of the chunker have fuel: one round for each
-- token and one more, since each round passes a token; one round for each block of a tree; and the
-- last end for the ends that are probed, since the distance doubles. Around a match, there is one
-- round for each block of the section and one more, since each round adds a block, and one for each
-- window for the windows that are probed, since the distance doubles. Fuel that is used up is the
-- exception `out_of_fuel`, which `Ensures` excludes. Every other loop is structural recursion.
--
-- Parameters of the models: the tokenizer, markdown-it, SHA-256, the hash of a policy's JSON,
-- random bytes, clocks, new UUIDs, the repository and the embedding model behind a search, the
-- check of a rollback target's stored artifacts and of its readiness, the audit sink and the
-- outcome of a commit. A lock is the outcome of trying it, and a table that is read before the
-- lock is an argument of its own. The build of an index around the parser and the chunker, the SQL
-- of the search and the HTTP and command-line front ends are not modelled.
pub mod Prelude
pub mod Search
pub mod Admin
pub mod Indexing
pub mod Examples

-- ===== src/Lib.antt =====
-- The columnar file format with its writer and its readers, the SQL front end, the predicates, the
-- scan and three operators, and the optimizer of vexq, over byte lists and native natural numbers.
--
-- Encoding models internal/encoding (binary.go, crc.go): little-endian words as `to_le` and
-- `read_le`, ChecksumIEEE as `checksum_ieee`, AppendChecksum and VerifyTrailing. A read of a slice
-- that is too short is `panic` of Prelude/Outcome, as Go's bounds check; an error value is `err`.
--
-- Storage models storage/codec.go: Bitmap is SetNullBit, SetValidBit, IsNullBit and FullBitmap;
-- Rle is EncodeRLEBool and DecodeRLEBool; Dict is DictBuilder, Dictionary and UnmarshalDictionary.
-- A uint32 counter keeps its wrap-around. The loops of EncodeRLEBool are recursion on the number
-- of rows left, which bounds them, since each round takes a row. The in-place writes of Go return
-- the new bytes here. The memo of Dictionary.Get is the field `cache`, passed from call to call.
--
-- Schema has the constants of storage/format.go and the types of storage/schema.go. Footer is
-- marshalFooter of storage/writer.go with readFooter and parseFooter of storage/reader.go, on the
-- bytes of a file: a short read of a file is an error. Blocks is the write loops of the five
-- column types: `write_blocks` is the loop over blocks, with what is noted of a row and how a
-- block is encoded as arguments, on fuel that is the number of values, since each round takes at
-- least one. Writer is the state machine of NewWriter, BeginRowGroup, AppendColumn, EndRowGroup,
-- Finish and BytesWritten; an operation that fails leaves the writer as it was. Writer/History has
-- its calls as a step relation. The numbers of a column and of a zone map are bit patterns, and
-- the addition and order of float64 values are the parameter `Floats`. Row counts and column
-- indices are natural numbers: a negative one of Go is not represented.
--
-- Column is ColumnReader of storage/rowgroup.go with OpenColumn of storage/reader.go: a reader is
-- a record with the file's bytes, and a call answers a result and the reader after it. Its window
-- is kept as the bytes and their place; the pool that the buffers come from is left out.
--
-- Sql models sql/lexer.go (Token, Lexer), sql/ast.go (Ast) and sql/parser.go (Parser);
-- Lexer/Quoting also has StringLiteral.String of sql/format.go, and Format the rest of that file,
-- with strconv.FormatInt and FormatFloat as parameters. The lexer's source and position are the
-- bytes left and the index; its one-token buffer is the field `peeked`. A parser step takes the
-- lexer and returns it, also where it fails, because a peek that fails has moved it. The mutual
-- recursion of the parser is on fuel, one unit for each call and each round of a loop, and answers
-- `out_of_fuel` when that is spent. strconv.ParseFloat is the parameter `parse_float`; a float is
-- its bit pattern.
--
-- Exec models exec/limit.go (Limit) and exec/distinct.go (Distinct) with the Batch of
-- exec/batch.go. An operator is its fields, and its child the list of results that the child still
-- yields, nil at its end; Next is a function from the operator to a result and the operator after
-- it. A negative `remaining` of Limit is `none`. Distinct reads a row as cells: a null, a string,
-- or the 64 bits of extractInt64; that reading of the vectors is not modelled.
--
-- Vector, Compare, Logic, Like, Predicates and Select model exec/expr.go with BoolVector of
-- exec/batch.go and the buffers of exec/scratch.go. An expression node is a function from the
-- vectors that its children yield to the vector that it yields: a buffer that is used again is
-- cleared first, so each node starts from fresh zeros. Compare is evalCmp with its kernels, one
-- generic loop for the three types; Logic is AndExpr, OrExpr and NotExpr; Predicates is InExpr,
-- LikeExpr, StringEqExpr, IsNullExpr and IsNotNullExpr; Like is likeMatch. The equality and order
-- of float64 values are a parameter, and so is what Get of a STRING column answers. Select is
-- BoolToSelVecInto and Filter.Next of exec/filter.go, with the predicate's Eval as a parameter;
-- the recursion is on the child's results.
--
-- Scan and TableScan model exec/scan.go: a block as a vector, a batch of the columns of a row
-- group, and Next, whose fuel is the number of row groups left and one, since a round that yields
-- no batch moves to the next row group. The decode buffers that Go uses again are fresh lists.
-- What ctx.Err answers is an argument.
--
-- Sort models exec/sort.go: the rows and less (Sort), emitBatch (Emit) and the operator over a
-- child given as the results that it yields (Operator). sort.SliceStable is a parameter of the
-- operator. Lexical has the order that less decides, Sorted what the operator holds after its
-- child is used up. StableSort is a sort that can stand for the parameter.
--
-- Planner models planner/exprwalk.go (Walk), planner/logical.go (Logical, with OutputSchema as the
-- names of the columns, in Optimizer), planner/optimizer.go (Optimizer) and, of
-- planner/physical.go, the zone-map predicate with the constants that it reads (Zones, Constants).
-- A visit of walkExpr is a function from what the visits before it left. The comparisons and the
-- conversions of float64 are the parameter `FloatOps`, with their order as the hypotheses
-- `FloatLaws`; time.ParseInLocation is the parameter `parse_time`. Zones/Meaning has what a
-- predicate says of a row, in the comparisons of Exec/Compare and, for BETWEEN on INT64, in those
-- that the plan of the predicate makes of both bounds together, and Optimizer/Pushdown the rows of
-- a plan, with the operators other than a filter as a parameter.
--
-- Not modelled: the memory that make takes, but for the body of a footer, the buffer pool, Abort
-- and the temporary file of the writer, VerifyFile, the evaluation of whole expression trees,
-- arithmetic, CASE and casts, Project, the aggregation, the joins, the catalog, the binding of
-- names in the planner and the mapping of a plan to operators, the command line, the benchmarks
-- and the golden-test engine. Goroutines, pooled buffers and file access are outside of the model.
--
-- Samples, WriterSamples, SqlSamples, ExecSamples, PredicateSamples, ScanSamples, SortSamples and
-- PlannerSamples run the definitions and apply the theorems to concrete inputs.
pub mod Storage
pub mod Sql
pub mod Exec
pub mod Planner
pub mod PlannerSamples
pub mod ScanSamples
pub mod SortSamples
pub mod StableSort
pub mod ExecSamples
pub mod WriterSamples
pub mod PredicateSamples
pub mod Samples
pub mod SqlSamples
pub mod Prelude
pub mod Encoding

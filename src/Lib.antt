-- ===== src/Lib.antt =====
-- Verification of the chess core and the utilities of lc0, the UCI engine that plays by Monte Carlo tree search.
--
-- The program: src/chess has the rules of the game. A `ChessBoard` (src/chess/board.h, board.cc) is a
-- set of bit boards, seen by the player to move; it generates moves, applies one, and is mirrored for the
-- other player. `BoardSquare`, `BitBoard` and `Move` (src/chess/bitboard.h, bitboard.cc) are the words
-- that it is made of. A `PositionHistory` (src/chess/position.h, position.cc) is the stack of the positions
-- of a game, from which repetitions and the result of the game are computed; the search, the encoder
-- of the network's input and the self-play games all work on it. src/utils has what the rest is built
-- with: the cache of the network's outputs (`LruCache`), the dictionary of options (`OptionsDict`) with its
-- parser, and string functions; src/chess/uciloop.cc reads the commands of the UCI protocol.
-- src/neural/encoder.cc makes the network's input from a history.
--
-- The files:
--   Base, Base/Tests, Base/Lists, Base/Int, Base/Text, Base/Options, Base/Distinct: shared names,
--     Boolean tests, lists, signed integers, texts as codes, options, lists without repetition.
--   Bits, Bits/Logic, Bits/Word: the bits of a number and of a word.
--   Hash: `Hash` and `HashCat` of src/utils/hashcat.h.
--   Square: `BoardSquare`, with the cut to a byte.
--   BitBoard: `BitBoard`, `GetLowestBit` and `BitIterator` (src/utils/bititer.h); Laws, Iterate, Count
--     and Mirror below it.
--   Move: `Move` as a 16-bit number; Fields, Laws and Text below it, and Index: the numbers of the moves for
--     the network (`kIdxToMove`, `as_nn_index`), its table in Index/Part1 to Part4.
--   Board: `ChessBoard`, `Clear`, `Mirror`, operator== and `Castlings`. Below it
--     Tables: the constant tables of board.cc; Pieces: the sets of pieces of one kind;
--     Magic: `BuildAttacksTable`, `GetRookAttacks`, `GetBishopAttacks`, with the look-up against the rays
--     in Rays, Index and Build; Attack: `IsUnderAttack`;
--     Apply: `ApplyMove`, one function for each block of it, with the mailbox board as its specification;
--     Generate: `GeneratePseudolegalMoves`; KingInfo: `GenerateKingAttackInfo`; Legal: `IsLegalMove`,
--     `GenerateLegalMoves`; Fen: `SetFromFen`; Mating: `HasMatingMaterial`; Print: `Hash`, `DebugString`;
--     Words and Rights: well-formed boards and castling rights; Sight: the mirrored board on the squares.
--   Position: `Position` and `PositionHistory`; Laws, Repetition and Result below it.
--   Encoder: `EncodePositionForNN` of src/neural/encoder.cc; Planes: the planes read off the positions.
--   LruCache: `LruCache` and `LruCacheLock` of src/utils/cache.h, on a store with one map for each field of an
--     item. Chain and Queue: the linked lists in the store; Invariant: what holds between two
--     operations; Entries: the cache from the outside; Evict, Shrink, Add, Insert, Find, Spot, Unpin,
--     Resize and Lock: the operations; Reachable: all states that they reach.
--   Strings: src/utils/string.cc, with StrSplit in Split.
--   OptionsDict: `OptionsDict` of src/utils/optionsdict.h, its Lexer and Parser of src/utils/optionsdict.cc; Lookup,
--     FreeName, Progress and Terminates: what holds of them.
--   OptionsParser: the kinds of options and `OptionsParser` of src/utils/optionsparser.cc; Flags: `ProcessFlags` and
--     `SetUciOption`; Help: the texts; Accepted, Bounds and Kept: the values that the options accept.
--   Uci: `ParseCommand` and `UciLoop` of src/chess/uciloop.cc; Responses, Params and Loop below it.
--   Tests: the theorems at concrete boards, words and games.
--
-- State and errors: each method that changes an object is a function to the new object; a method that
-- throws or reads past the end gives an `Option`. The static attack tables are a record that the functions
-- take as an argument. Words are natural numbers with the wrap-around of `uint64_t`, `uint16_t` and
-- `uint8_t` written out; an `int` is an integer without bound, as no sum of the code comes near 2 ^ 31.
--
-- Bounds: the loop over a bit board and `count_few` have 64 rounds, one for each bit of the word; a ray
-- has 8 steps, after which it has left the board; the bits that `_pext_u64` collects are 64; a decimal
-- number below 2 ^ 64 has at most 20 digits. The loops over the chains of the cache have one round more
-- than the cache has items, ShrinkToCapacity as many as items; the parser of options has two rounds more
-- than the text has characters, as each round takes one, and the search for a free name one more than there
-- are names.
--
-- Not modelled: the build with NO_PEXT (multiplication by magic numbers), the search, the network
-- back ends, the tablebases, files, locks and the threads of self-play.
pub mod Base
pub mod Bits
pub mod Hash
pub mod Square
pub mod BitBoard
pub mod Move
pub mod Board
pub mod Position
pub mod Tests
pub mod LruCache
pub mod OptionsDict
pub mod OptionsParser
pub mod Strings
pub mod Uci
pub mod Encoder

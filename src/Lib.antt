-- ===== src/Lib.antt =====
-- The package manager of Alpine Linux, apk-tools: its texts, versions, digests, dependencies,
-- tables, archives, databases and solver.
--
-- The components below are those of apk-tools/src, written in C. A package index, the installed
-- database and a world file are texts that `blob.c` cuts and decodes; `ctype.c` holds the classes of
-- characters that end a name, a version or an operator. `version.c` splits versions into tokens and
-- compares them; `package.c` parses the dependencies that combine names, operators and versions, and
-- decides whether a package satisfies one, for which it prints and reads the digests of `blob.c` and
-- `crypto.c`. Names, atoms and variables are looked up in the tables of `hash.c`;
-- `repoparser.c` reads the lines that name repositories, whose urls may hold variables. `solver.c`
-- takes the packages known and the dependencies of the world and decides which packages to install
-- and to remove, and in which order. `adb.c` keeps packages and indexes in a binary format: a file of
-- blocks, one of which is a database of values that refer to one another by offsets, followed by its
-- signatures.
--
-- Base       Booleans, lists measured by native numbers, bits and orders: no code of the program.
-- Ctype      apk-tools/src/ctype.c: the tables of classes, `apk_blob_spn` and `apk_blob_cspn`.
-- Blob       apk-tools/src/blob.c and apk_blob.h. Blob.Order compares, Blob.Search splits, Blob.Push
--            writes into a buffer, Blob.Pull reads numbers and hexdumps, Blob.Base64 does base64.
-- Version    apk-tools/src/version.c: the tokenizer and validation; Version.Operators and
--            Version.Compare are the operators and the comparison, Version.Keys and Version.Order
--            describe the order by keys of tokens, Version.Grammar the texts that are versions.
-- Digest     apk-tools/src/crypto.c and apk_crypto.h, with the printing and reading in blob.c.
-- Dependency apk-tools/src/package.c: .Syntax parses, .Print prints, .Lists adds and removes,
--            .Matching decides, .Replaces tells owners, .Removal and .Reading are laws; .Tags is
--            `apk_db_get_tag_id` of apk-tools/src/database.c.
-- Hash       apk-tools/src/hash.c and apk_hash.h, for any record of operations.
--            Hash.Murmur is the hash of blob.c, Hash.Atoms the pool of atoms of apk-tools/src/atom.c.
-- Repositories  apk-tools/src/repoparser.c: .Variables is the table of variables, .Lines cuts words
--            and definitions, .Entries is `apk_repoparser_parse`, with the path builder of
--            apk-tools/src/pathbuilder.c. Blob.Subst is the substitution that it uses.
-- Solver     apk-tools/src/solver.c, with the states of apk_solver_data.h: .Discovery visits the names,
--            .Queues and .Constraints keep what is left to do and what packages are excluded,
--            .Reconsider is `reconsider_name`, .Preference compares providers, .Selection assigns
--            names, .Changes generates the changeset, and .Solve is `apk_solver_solve`. Below
--            .Changes: .Kept and .Pushed are what a task keeps and leaves, .Sound, .Steps and .Reach
--            the dependencies of what is installed, .Measure, .Goes, .Ends and .Total that it ends.
--            .Grows and below are about what stays through the search, .Preference.Laws about the
--            order of providers.
-- Tar        apk-tools/src/tar.c: the headers and the writer of archives, with Tar.Octal and Tar.Layout
--            on the fields and the layout; Tar.Extended is `handle_extended_header`.
-- Adb        apk-tools/src/adb.h and adb.c: .Layout and .Read are values and what is read from them,
--            .Blocks the blocks of a file, .Parse finds a database among them and decides whether to
--            trust it, .Container is the file as it is written and mapped, .Write adds data, and
--            .Objects builds objects. Below .Parse: .Evidence, .Keeps and .Accepts are what a database
--            was trusted for, .Total that the parser returns. Below .Write: .Memory and .Raw are the
--            memory, .Shared the cache, .Values and .Numbers that values read back. .Schema has the texts
--            of apk-tools/src/apk_adb.c that become values, with the units of print.c.
-- Tests      Runs of the definitions, and instances of the theorems.
--
-- A blob is a list of bytes, or `none` for a null pointer; a byte is a native number. A function
-- that moves a blob's start returns the rest. A sink is what was written into an array and the
-- room left. Numbers of 64 bits are taken modulo 2 ^ 64 where the code multiplies and adds. A read
-- behind the end of a blob, and a pointer that is left before an array, are results of their own; the
-- addresses of the arrays of `repoparser.c` are a parameter. A function that the code runs in a loop over
-- characters is structural recursion; the loops over the tokens of versions run on fuel, the
-- length of the text and two rounds more; those over dependencies, variables and components run on
-- the length of their text; and the loop that prints a number has the number itself as fuel. Names
-- and atoms stand for their texts, which their tables make unique.
--
-- In the solver a name and a package are numbers, for their addresses, and the states that the code
-- keeps inside of them are functions of the number. The recursion of `discover_name` and of the
-- functions `cset_*` is a stack of visits and of tasks: one step takes the first, changes the state and
-- puts what the call does next in its place. The loops of the stack, of the search and of the restarts
-- run on rounds, with no result where the rounds run out. Flags are records of Booleans, counts of 16
-- and 32 bits wrap around, and the count of errors is a number without bound: each package and name
-- adds one at most.
--
-- In a database a value is the number that it stores, whatever the order of the machine's bytes, and
-- its memory is a list of bytes; an operation that ends the program by a failed assertion has no
-- result. The `pre_commit` of a schema is an argument where an object is written, a function that changes
-- the object; the one that sorts has a parameter, for qsort_r with the comparison of the schema. The cryptography of databases is two parameters, the digest and the check of a signature; a
-- round trip supposes that there is a digest and that a signature that was made is accepted. The loop over the blocks runs on the
-- length of the file, which is enough where no header names a size that wraps around; the loop that
-- doubles the memory runs 33 times, which is enough for 2 ^ 31 bytes.
--
-- Not modelled: streams, files, processes and terminals, the cryptographic libraries, memory
-- itself, the database's files, and libfetch, which is a copy of another project.
pub mod Adb
pub mod Base
pub mod Blob
pub mod Ctype
pub mod Dependency
pub mod Digest
pub mod Hash
pub mod Repositories
pub mod Solver
pub mod Tar
pub mod Tests
pub mod Version

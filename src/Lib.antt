-- ===== src/Lib.antt =====
-- A distributed system that runs queries over a file system of blocks: the master hands queries to
-- workers, a worker runs the instructions of a query through its internal memory of pages, the
-- storage keeps the blocks, and the processes talk in packets over sockets.
--
-- Utils models utils/src/paquete.c and utils/include/protocolo.h. Utils/Protocolo is the
-- enumeration of the codes. Utils/Paquete builds, serialises and receives packets; a socket is the
-- list of the bytes that arrive until the peer closes, and what a receive does is a value: it
-- delivers, it returns NULL, or it reads an `int` that was not filled. Utils/Paquete/Enteros is
-- the `int` in memory, little-endian and of 32 bits. The rounds of the loop over the buffer are
-- bounded by its size, since a round takes four bytes at least. `malloc` is a parameter of what
-- serialises a packet: it is asked for the size and 8 bytes, a sum that leaves the `int` from 2 ^
-- 31 - 8 on.
--
-- Master models master/src/master.c. Master/Estado is the shared state: the queries and the
-- workers stand in two heaps, and the queue, `query_en_worker` and `lista_workers` hold addresses,
-- so that a query that is reached from a list and from its timer is one query. Master/Listas are
-- the searches, Master/Planificador is `comenzar_a_ejecutar`, `chequeador_desalojo` and
-- `realizar_desalojo`, Master/Queries and Master/Workers are the threads of a query and of a
-- worker, with the failures that a worker reports in Master/Fallas, one function for each handler
-- and each case of the `switch` of `atender_Worker`. Master/Atencion takes the packets apart and
-- is the step of the whole process: an event is what wakes a thread. A handler is one step: the
-- interleavings of two handlers between two locks are not modelled. `sem_wait` on the queue is the
-- value `espera` and an event that tries again; the rounds of the loop of `comenzar_a_ejecutar`
-- are counted by the semaphore, which each round takes one unit from. An access through NULL is
-- `none`. Master/Coherencia is the invariant of the two lists and its preservation.
--
-- Worker/Memoria models worker/src/memoria.c. Worker/Memoria/Estado is the state: entries stand in
-- a heap that only grows, and frames, tables and the LRU list hold their addresses.
-- Worker/Memoria/Clock is the search of `aplicar_clock_m`, Worker/Memoria/Paginas is the search
-- and the flush of pages, Worker/Memoria/Reemplazo is the replacement and the load,
-- Worker/Memoria/Acceso is `acceder_memoria`. The storage at the other end of the socket is a
-- parameter: a function from its state and a packet to an answer and its next state.
-- Worker/Memoria/Bien is the invariant of a memory and its preservation. The loop of
-- `acceder_memoria` runs on the number of pages from the first to the last, since each round goes
-- on to the next page. The offset of an access is a natural number, and its sum with the size does
-- not wrap: a negative offset is not modelled. `malloc` is a parameter of `acceder_memoria`, which
-- says of which sizes a read gets its buffer. What `memcpy` reads past a block that is shorter
-- than a page is a part of the state of which nothing is assumed.
--
-- Worker/Interprete is the start of worker/src/query_interpreter.c: Worker/Interprete/Fetch reads
-- the next instruction from the lines of the file of a query, and Worker/Interprete/Decode parses
-- it, a pointer to NULL being `none`. `string_trim`, `string_n_split` and
-- `string_equals_ignore_case` of so-commons are parameters. `getline` gives a line at a time,
-- without a NUL inside, and `atoi` a number that does not wrap.
--
-- Storage models storage/src/operaciones.c, with the dispatch of storage/src/servidorMultihilo.c
-- and the start of storage/src/storage.c. Storage/Disco is the state: the superblock, the bitmap,
-- the physical blocks, the dictionary of hashes, and the directories of the File:Tags, each with
-- its metadata and with its logical blocks, which are hard links. A physical block is named by its
-- number and so is its inode, as the code only removes a physical name that no logical block is
-- linked to; the number of links is counted from the directories. A File:Tag is found by its path,
-- `file/tag`, and the names have no `/`. Storage/Bloques is the text of `BLOCKS`, how it is
-- written and how it is read back; elsewhere `BLOCKS` is the list of its numbers. Storage/Inicio
-- is a fresh start, Storage/Archivos is create, truncate, tag and delete, Storage/Escritura is the
-- read and the write of a logical block, Storage/Commit is the commit with `evitar_duplicidad`,
-- Storage/Flush is the flush, and Storage/Servidor is `rutina_operaciones` with the packet of each
-- operation. An operation is one step on the state, and what it returns is a value beside the
-- state that it leaves. `crypto_md5` and `config_get_array_value` of so-commons are parameters.
-- The content of a write goes up to its first NUL, and the packet has one: what `strlen` would
-- read past the end of a content without it is not modelled. Storage/Sano is the invariant of a
-- file system and its preservation. Storage/Vista is the abstract view: a File:Tag is a state and
-- the contents of its blocks, with no physical blocks and no links; each operation is related to
-- what it does there. Storage/Permisos is what a File:Tag that is committed, or the first one,
-- allows.
--
-- Numbers: ids, sockets, program counters and sizes are natural numbers and do not wrap;
-- priorities and the count of the workers are signed and do not wrap; the size of a packet's
-- buffer wraps at 2 ^ 32.
--
-- The sizes of the file system are natural numbers, so that a TRUNCATE to a negative size is not
-- modelled.
--
-- Not modelled: the cycle of the interpreter and the functions that run an instruction, the query
-- control, the connections of the worker, a start of the storage with `FRESH_START=FALSE`,
-- failures of the operating system other than a file that is or is not there, logs, delays,
-- `free`, a `malloc` that gives nothing but for a packet and for the buffer of a read, the
-- mutexes, the threads' creation, configuration and sockets as such. `list_get_maximum` of
-- so-commons is a parameter with the property that its documentation states.
pub mod Prelude
pub mod Utils
pub mod Worker
pub mod Storage
pub mod Master
pub mod Tests

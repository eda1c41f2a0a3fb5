-- ===== src/Master/Estado.antt =====
-- master/src/master.h and the globals of master/src/master.c: the state that the threads share.
-- The queries and the workers are reached from several lists and threads: `queries` and `workers`
-- are the heap, a list or a thread holds positions in it.
use tp_2025_2c_kernel_panic.Prelude.{
  ℕ, List, [], ◌∷◌, ◌++◌, Bool, false, Cadena, ℤ, pos, get_or, set, codes, str_eq,
}
use tp_2025_2c_kernel_panic.Utils.Protocolo.{OpCode}

-- `enum estado`
pub data Estado : Type 0 where
  ready running exit : Estado

-- `t_query`; `timer_query` is the value of the semaphore.
pub record Query : Type 0 where
  pub id : ℕ
  pub path : Cadena
  pub prioridad : ℤ
  pub socket : ℕ
  pub program_counter : ℕ
  pub id_worker : ℕ
  pub estado : Estado
  pub alive : Bool
  pub timer_query : ℕ

-- `t_worker`
pub record Worker : Type 0 where
  pub id : ℕ
  pub socket : ℕ
  pub socket_interruption : ℕ
  pub desconection : Bool
  pub desconexion_worker : ℕ

-- `t_hacerConnect`: the connection that a thread attends.
pub record HacerConnect : Type 0 where
  pub socket_conexion : ℕ
  pub id : ℕ

-- A packet handed to `enviar_paquete`.
pub record Envio : Type 0 where
  pub socket : ℕ
  pub codigo : OpCode
  pub valores : List (List ℕ)

-- The globals, the heap, and what was sent and closed so far.
pub record Master : Type 0 where
  pub algoritmo_planificacion : Cadena
  pub tiempo_aging : ℕ
  pub cantidad_workers : ℤ
  pub id_query : ℕ
  pub sem_queries : ℕ
  pub queries : List Query
  pub workers : List Worker
  pub cola_queries : List ℕ
  pub query_en_worker : List ℕ
  pub lista_workers : List ℕ
  pub enviados : List Envio
  pub cerrados : List ℕ

abbrev pub query_vacia : Query
query_vacia = record {
  id = 0;
  path = [];
  prioridad = pos 0;
  socket = 0;
  program_counter = 0;
  id_worker = 0;
  estado = exit;
  alive = false;
  timer_query = 0;
}

abbrev pub worker_vacio : Worker
worker_vacio = record {
  id = 0;
  socket = 0;
  socket_interruption = 0;
  desconection = false;
  desconexion_worker = 0;
}

abbrev pub query_en : Master → ℕ → Query
query_en m q = get_or m.queries q query_vacia

abbrev pub worker_en : Master → ℕ → Worker
worker_en m w = get_or m.workers w worker_vacio

abbrev pub con_query : Master → ℕ → Query → Master
con_query m q nueva = record m { queries = set m.queries q nueva }

abbrev pub con_worker : Master → ℕ → Worker → Master
con_worker m w nuevo = record m { workers = set m.workers w nuevo }

abbrev pub enviar : Master → ℕ → OpCode → List (List ℕ) → Master
enviar m socket codigo valores = record m {
  enviados = m.enviados ++ record { socket = socket; codigo = codigo; valores = valores } ∷ [];
}

abbrev pub es_prioridades : Master → Bool
es_prioridades m = str_eq m.algoritmo_planificacion (codes "PRIORIDADES")

abbrev pub es_fifo : Master → Bool
es_fifo m = str_eq m.algoritmo_planificacion (codes "FIFO")

-- `main` and `inicializar_semaforos`: no query, no worker, both semaphores at 0.
unfoldable pub inicializar_semaforos : Cadena → ℕ → Master
inicializar_semaforos algoritmo_planificacion tiempo_aging = record {
  algoritmo_planificacion = algoritmo_planificacion;
  tiempo_aging = tiempo_aging;
  cantidad_workers = pos 0;
  id_query = 0;
  sem_queries = 0;
  queries = [];
  workers = [];
  cola_queries = [];
  query_en_worker = [];
  lista_workers = [];
  enviados = [];
  cerrados = [];
}

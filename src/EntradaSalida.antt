-- ===== src/EntradaSalida.antt =====
-- entradasalida/src: the file system of the DialFS interfaces, the requests of the kernel and
-- their execution.
pub mod Bitmap
pub mod Nombres
pub mod Archivos
pub mod Mensajes
pub mod Operaciones
